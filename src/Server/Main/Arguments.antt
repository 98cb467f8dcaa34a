-- ===== src/Server/Main/Arguments.antt =====
-- The options of server/main.c.
use diary.Prelude.{◌≡◌, refl, List, [], ◌∷◌, ◌++◌, some, Text, codes, if◌then◌else◌}
use diary.Libc.Str.{strcmp_eq}
use diary.Libc.Decimal.{atoi}
use diary.Server.Main.{Options, version, usage, parse_args}

-- An option with its value.
pub data Given : Type 0 where
  port_is key_is db_is : Text → Given

-- As it stands on the command line.
abbrev pub words : List Given → List Text
words [] = []
words (port_is v ∷ gs) = codes "-p" ∷ v ∷ words gs
words (key_is v ∷ gs) = codes "-k" ∷ v ∷ words gs
words (db_is v ∷ gs) = codes "-db" ∷ v ∷ words gs

-- What it asks for; the last one of a kind counts.
abbrev pub apply : Options → List Given → Options
apply o [] = o
apply o (port_is v ∷ gs) = apply (record o { port = atoi v }) gs
apply o (key_is v ∷ gs) = apply (record o { pubkey_path = some v }) gs
apply o (db_is v ∷ gs) = apply (record o { db_path = some v }) gs

-- Options with values are read as given, in any order and number, whatever the values are, even one
-- that looks like an option; the loop then goes on with the words behind them, if any.
pub parse_args-words :
    (o : Options) (gs : List Given) (rest : List Text)
    → parse_args o (words gs ++ rest) ≡ parse_args (apply o gs) rest
unfolding parse_args strcmp_eq
parse_args-words o [] rest = refl
parse_args-words o (port_is v ∷ gs) rest = parse_args-words (record o { port = atoi v }) gs rest
parse_args-words o (key_is v ∷ gs) rest =
    parse_args-words (record o { pubkey_path = some v }) gs rest
parse_args-words o (db_is v ∷ gs) rest = parse_args-words (record o { db_path = some v }) gs rest

-- One word of another kind behind them ends the program: -v with the version, all else with the usage.
pub parse_args_ends :
    (o : Options) (gs : List Given) (a : Text)
    → parse_args o (words gs ++ a ∷ []) ≡ (if strcmp_eq a (codes "-v") then version else usage)
unfolding parse_args
parse_args_ends o gs a = parse_args-words o gs (a ∷ [])
