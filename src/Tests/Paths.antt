-- ===== src/Tests/Paths.antt =====
-- src/fs/pparser.c at `0:/bin/sh`.
use conifer_os.Common.{
  true, refl, ℕ, ◌≤◌, ◌≡◌, arith, none, some, List, [], ◌∷◌, ◌++◌, pos, length, if◌then◌else◌, ltb,
}
use conifer_os.PathParser.{pparser_parse, max_file_path_chars}
use conifer_os.PathParser.Names.{pad_all}
use conifer_os.PathParser.Root.{root_of, pparser_parse_lem}
use conifer_os.PathParser.RoundTrip.{IsName, join, print_path, pparser_parse-print_path}

-- `0:/bin/sh`
abbrev path : List ℕ
path = 48 ∷ 58 ∷ 47 ∷ 98 ∷ 105 ∷ 110 ∷ 47 ∷ 115 ∷ 104 ∷ []

abbrev bin : List ℕ
bin = 98 ∷ 105 ∷ 110 ∷ []

abbrev sh : List ℕ
sh = 115 ∷ 104 ∷ []

pparser_parse_lem_example :
    pparser_parse (λ i. true) (path ++ (0 ∷ 7 ∷ []))
    ≡ some (if ltb max_file_path_chars (length path) then none else root_of path)
pparser_parse_lem_example =
    pparser_parse_lem (λ i. true) (λ i. refl) (7 ∷ []) path
      (
        omega arith,
        (
          omega arith,
          (
            omega arith,
            (
              omega arith,
              (omega arith, (omega arith, (omega arith, (omega arith, (omega arith, tt))))),
            ),
          ),
        ),
      )

bin-IsName : IsName bin
bin-IsName = record {
  nonempty = λ e. cc;
  no_null = (omega arith, (omega arith, (omega arith, tt)));
  no_slash = (omega arith, (omega arith, (omega arith, tt)));
}

sh-IsName : IsName sh
sh-IsName = record {
  nonempty = λ e. cc;
  no_null = (omega arith, (omega arith, tt));
  no_slash = (omega arith, (omega arith, tt));
}

room : length (print_path 0 (bin ∷ sh ∷ [])) ≤ max_file_path_chars
unfolding print_path join
room = omega arith

pparser_parse-print_path_example :
    pparser_parse (λ i. true) (print_path 0 (bin ∷ sh ∷ []) ++ (0 ∷ []))
    ≡ some (some (record { drive_no = pos 0; first = pad_all (bin ∷ sh ∷ []) }))
pparser_parse-print_path_example =
    pparser_parse-print_path (λ i. true) 0 bin (sh ∷ []) [] (λ i. refl) (omega arith)
      (bin-IsName, (sh-IsName, tt)) room
