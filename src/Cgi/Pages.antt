-- ===== src/Cgi/Pages.antt =====
-- The pages of the Windows server, nctu_np_project3/windows_cgi_server/main.cpp: run_panel_cgi and
-- the page of run_console_cgi. A string of the source is the list of its literals.
use network_programming_nctu.Base.{ℕ, suc, List, [], ◌∷◌, ◌++◌, Bytes, codes}
use network_programming_nctu.Strings.Decimal.{decimal}
use network_programming_nctu.Console.{columns_from, column_head, column_body}
use network_programming_nctu.Console.Query.{Query}

unfoldable pub joined : List Bytes → Bytes
joined [] = []
joined (s ∷ ss) = s ++ joined ss

unfoldable pub panel_header : List Bytes
panel_header =
    codes "<!DOCTYPE html>"
    ∷ codes "<html lang = \"en\">"
    ∷ codes "<head>"
    ∷ codes "<title>NP Project 3 Panel</title>"
    ∷ codes "<link "
    ∷ codes "rel = \"stylesheet\""
    ∷ codes "href =\"https://stackpath.bootstrapcdn.com/bootstrap/4.1.3/css/bootstrap.min.css\""
    ∷ codes
        "integrity = \"sha384-MCw98/SFnGE8fJT3GXwEOngsV7Zt27NXFoaoApmYm81iuXoPkFOJwJ8ERdknLPMO\""
    ∷ codes "crossorigin = \"anonymous\""
    ∷ codes "/>"
    ∷ codes "<link "
    ∷ codes "href = \"https://fonts.googleapis.com/css?family=Source+Code+Pro\""
    ∷ codes "rel = \"stylesheet\""
    ∷ codes "/> "
    ∷ codes "<link "
    ∷ codes "rel = \"icon\""
    ∷ codes "type = \"image/png\""
    ∷ codes
        "href = \"https://cdn4.iconfinder.com/data/icons/iconsimple-setting-time/512/dashboard-512.png\""
    ∷ codes "/> "
    ∷ codes "<style> "
    ∷ codes "* {"
    ∷ codes "font - family: 'Source Code Pro', monospace;"
    ∷ codes "}"
    ∷ codes "</style> "
    ∷ codes "</head> "
    ∷ []

unfoldable pub panel_body : List Bytes
panel_body =
    codes "<body class=\"bg - secondary pt - 5\"> "
    ∷ codes "<form action = \"console.cgi\" method = \"GET\">"
    ∷ codes "<table class = \"table mx-auto bg-light\" style = \"width: inherit\">"
    ∷ codes "<thead class = \"thead-dark\">"
    ∷ codes "<tr>"
    ∷ codes "<th scope = \"col\">#</th> "
    ∷ codes "<th scope = \"col\">Host</th> "
    ∷ codes "<th scope = \"col\">Port</th> "
    ∷ codes "<th scope = \"col\">Input File</th> "
    ∷ codes "</tr>"
    ∷ codes "</thead>"
    ∷ codes "<tbody> "
    ∷ []

-- The row of a session: its three fields.
unfoldable pub panel_row : ℕ → List Bytes
panel_row i =
    codes "<tr> "
    ∷ codes "<th scope = \"row\" class = \"align - middle\">Session "
    ∷ decimal (suc i)
    ∷ codes " </th> "
    ∷ codes "<td> "
    ∷ codes "<div class = \"input-group\"> "
    ∷ codes "<select name = \"h"
    ∷ decimal i
    ∷ codes "\" class = \"custom-select\"> "
    ∷ codes
        "<option></option><option value = \"nplinux1.cs.nctu.edu.tw\">nplinux1</option><option value = \"nplinux2.cs.nctu.edu.tw\">nplinux2</option><option value = \"nplinux3.cs.nctu.edu.tw\">nplinux3</option><option value = \"nplinux4.cs.nctu.edu.tw\">nplinux4</option><option value = \"nplinux5.cs.nctu.edu.tw\">nplinux5</option><option value = \"npbsd1.cs.nctu.edu.tw\">npbsd1</option><option value = \"npbsd2.cs.nctu.edu.tw\">npbsd2</option><option value = \"npbsd3.cs.nctu.edu.tw\">npbsd3</option><option value = \"npbsd4.cs.nctu.edu.tw\">npbsd4</option><option value = \"npbsd5.cs.nctu.edu.tw\">npbsd5</option> "
    ∷ codes "</select>"
    ∷ codes "<div class = \"input-group-append\">"
    ∷ codes "<span class = \"input-group-text\">.cs.nctu.edu.tw</span> "
    ∷ codes "</ div>"
    ∷ codes "</div> "
    ∷ codes "</td> "
    ∷ codes "<td> "
    ∷ codes "<input name = \"p"
    ∷ decimal i
    ∷ codes "\" type = \"text\" class = \"form-control\" size = \"5\" /> "
    ∷ codes "</td> "
    ∷ codes "<td> "
    ∷ codes "<select name = \"f"
    ∷ decimal i
    ∷ codes "\" class = \"custom-select\"> "
    ∷ codes "<option></option>"
    ∷ codes
        "<option value = \"t1.txt\">t1.txt</option><option value = \"t2.txt\">t2.txt</option><option value = \"t3.txt\">t3.txt</option><option value = \"t4.txt\">t4.txt</option><option value = \"t5.txt\">t5.txt</option><option value = \"t6.txt\">t6.txt</option><option value = \"t7.txt\">t7.txt</option><option value = \"t8.txt\">t8.txt</option><option value = \"t9.txt\">t9.txt</option><option value = \"t10.txt\">t10.txt</option> "
    ∷ codes "</select> "
    ∷ codes "</td>"
    ∷ codes "</tr>"
    ∷ codes "<tr>"
    ∷ []

unfoldable pub panel_tail : List Bytes
panel_tail =
    codes "<tr> "
    ∷ codes "<td colspan = \"3\"></td>"
    ∷ codes "<td>"
    ∷ codes "<button type = \"submit\" class = \"btn btn - info btn - block\">Run</button> "
    ∷ codes "</td> "
    ∷ codes "</tr> "
    ∷ codes "</tbody> "
    ∷ codes "</table> "
    ∷ codes "</form> "
    ∷ codes "</body> "
    ∷ codes "</html> "
    ∷ []

unfoldable pub panel_page : Bytes
panel_page =
    joined panel_header
    ++ (joined panel_body ++ (columns_from (λ i. joined (panel_row i)) 5 0 ++ joined panel_tail))

unfoldable pub console_header : List Bytes
console_header =
    codes "<!DOCTYPE html> "
    ∷ codes "<html lang=\"en\"> "
    ∷ codes "<head> "
    ∷ codes "<meta charset=\"UTF-8\" /> "
    ∷ codes "<title>NP Project 3 Console</title> "
    ∷ codes "<link "
    ∷ codes "rel=\"stylesheet\" "
    ∷ codes "href=\"https://stackpath.bootstrapcdn.com/bootstrap/4.1.3/css/bootstrap.min.css\" "
    ∷ codes "integrity=\"sha384-MCw98/SFnGE8fJT3GXwEOngsV7Zt27NXFoaoApmYm81iuXoPkFOJwJ8ERdknLPMO\" "
    ∷ codes "crossorigin=\"anonymous\" "
    ∷ codes "/> "
    ∷ codes "<link "
    ∷ codes "href=\"https://fonts.googleapis.com/css?family=Source+Code+Pro\" "
    ∷ codes "rel=\"stylesheet\""
    ∷ codes "/> "
    ∷ codes "<link "
    ∷ codes "rel=\"icon\" "
    ∷ codes "type=\"image/png\" "
    ∷ codes
        "href=\"https://cdn0.iconfinder.com/data/icons/small-n-flat/24/678068-terminal-512.png\" "
    ∷ codes "/> "
    ∷ codes "<style> "
    ∷ codes "  * {"
    ∷ codes "    font-family: 'Source Code Pro', monospace; "
    ∷ codes "    font-size: 1rem !important; "
    ∷ codes "  } "
    ∷ codes "  body { "
    ∷ codes "    background-color: #212529; "
    ∷ codes "  } "
    ∷ codes "  pre { "
    ∷ codes "    color: #cccccc; "
    ∷ codes "  } "
    ∷ codes "  b { "
    ∷ codes "    color: #ffffff; "
    ∷ codes "  } "
    ∷ codes "</style> "
    ∷ codes "</head> "
    ∷ []

unfoldable pub console_body : Query → Bytes
console_body query =
    codes "<body> <table class=\"table table-dark table-bordered\"> <thead> <tr> "
    ++ (columns_from (column_head query) 5 0
        ++ (codes "</tr> </thead> <tbody> <tr> "
            ++ (columns_from (column_body query) 5 0
                ++ codes "</tr> </tbody> </table> </body> </html> ")))
