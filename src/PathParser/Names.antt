-- ===== src/PathParser/Names.antt =====
-- The reference for src/fs/pparser.c: the names between the slashes of a text.
use conifer_os.Common.{ℕ, List, [], ◌∷◌, ◌++◌, ◌-◌, ◌==◌, if◌then◌else◌, length, replicate}
use conifer_os.PathParser.{slash, max_file_path_chars}

abbrev pub push_head : ℕ → List (List ℕ) → List (List ℕ)
push_head c [] = (c ∷ []) ∷ []
push_head c (p ∷ ps) = (c ∷ p) ∷ ps

-- The pieces between the slashes.
unfoldable pub split : List ℕ → List (List ℕ)
split [] = [] ∷ []
split (c ∷ t) = if c == slash then [] ∷ split t else push_head c (split t)

-- The pieces in front of the first empty one.
unfoldable pub names : List (List ℕ) → List (List ℕ)
names [] = []
names ([] ∷ ps) = []
names ((c ∷ p) ∷ ps) = (c ∷ p) ∷ names ps

-- A name in its zeroed buffer.
abbrev pub pad : List ℕ → List ℕ
pad p = p ++ replicate (max_file_path_chars - length p) 0

unfoldable pub pad_all : List (List ℕ) → List (List ℕ)
pad_all [] = []
pad_all (p ∷ ps) = pad p ∷ pad_all ps
