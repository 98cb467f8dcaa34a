-- ===== src/Client/Main.antt =====
-- client/main.c: the options and the steps of `main`. The wire protocol and the keys of the submodule
-- protocol/ are a parameter, as are getopt_long, by the options that it finds, and the calendar. What
-- is printed on stderr is left out.
pub mod Arguments
pub mod Post
use diary.Prelude.{ℕ, Bool, true, false, not, ◌||◌, List, [], ◌∷◌, ◌++◌, Option, none, some}
use diary.Prelude.{Text, codes, if◌then◌else◌}
use diary.Prelude.Int.{ℤ, pos, neg, eq_ℤ, is_positive, ltb_ℤ}
use diary.Libc.Str.{c_string}
use diary.Libc.Decimal.{print_int, atoi}
use diary.Client.Net.{Wire, net_post_entry}
use diary.Client.Stdin.{Buffer, read_stdin}
use diary.Client.Ui.Backup.{Files}
use diary.Client.Ui.ListScreen.{ListInput, Screen, screen_list}

-- `struct tm`.
pub record Tm : Type 0 where
  pub tm_sec : ℤ
  pub tm_min : ℤ
  pub tm_hour : ℤ
  pub tm_mday : ℤ
  pub tm_mon : ℤ
  pub tm_year : ℤ
  pub tm_wday : ℤ
  pub tm_yday : ℤ
  pub tm_isdst : ℤ

-- strptime(s, format, &tm): what is left of the text, and the fields; and mktime(&tm).
pub record Calendar : Type 0 where
  pub strptime : Text → Text → Tm → Option (Text × Tm)
  pub mktime : Tm → ℤ

abbrev no_time : Tm
no_time = record {
  tm_sec = pos 0;
  tm_min = pos 0;
  tm_hour = pos 0;
  tm_mday = pos 0;
  tm_mon = pos 0;
  tm_year = pos 0;
  tm_wday = pos 0;
  tm_yday = pos 0;
  tm_isdst = pos 0;
}

-- `return` with a time that does not exist as -1.
abbrev time_or_error : ℤ → ℤ
time_or_error t = if eq_ℤ t (neg 1) then neg 1 else t

unfoldable pub parse_entry_at : Calendar → Text → ℤ
parse_entry_at cal s = elim (cal.strptime s (codes "%Y-%m-%d %H:%M") no_time) [
  | none ↦ neg 1
  | some ([], tm) ↦ time_or_error (cal.mktime (record tm { tm_isdst = neg 1 }))
  | some (_ ∷ _, tm) ↦ neg 1
]

-- What getopt_long returns, with its argument.
pub data Opt : Type 0 where
  host_is port_is auth_is enc_is entry_at_is : Text → Opt
  post version unknown : Opt

pub record Options : Type 0 where
  pub host : Text
  pub port : ℤ
  pub auth_sk : Text
  pub enc_sk : Text
  pub entry_at : ℤ
  pub post_mode : Bool

-- DIARY_PORT and the other values to begin with.
abbrev pub default_options : Options
default_options = record {
  host = codes "127.0.0.1";
  port = pos 4242;
  auth_sk = codes "auth.key";
  enc_sk = codes "enc.key";
  entry_at = pos 0;
  post_mode = false;
}

-- What the loop over the options comes to: the options, or the end of the program with a status and
-- what it prints.
pub data Parsed : Type 0 where
  go_on : Options → Parsed
  stops : ℕ → List Text → Parsed

unfoldable pub read_options : Calendar → Options → List Opt → Parsed
read_options cal o [] = go_on o
read_options cal o (host_is v ∷ opts) = read_options cal (record o { host = v }) opts
read_options cal o (port_is v ∷ opts) = read_options cal (record o { port = atoi v }) opts
read_options cal o (auth_is v ∷ opts) = read_options cal (record o { auth_sk = v }) opts
read_options cal o (enc_is v ∷ opts) = read_options cal (record o { enc_sk = v }) opts
read_options cal o (entry_at_is v ∷ opts) =
    let dated = read_options cal (record o { entry_at = parse_entry_at cal v }) opts in
    if not (is_positive (parse_entry_at cal v)) then stops 1 [] else dated
read_options cal o (post ∷ opts) = read_options cal (record o { post_mode = true }) opts
read_options cal o (version ∷ opts) = stops 0 (codes "diary-client 1.1" ∷ [])
read_options cal o (unknown ∷ opts) = stops 1 []

module _ (w : Wire) where
  -- protocol/crypto.h and protocol/wire.h: whether libsodium starts, the keys in two files, and a
  -- connection that is up, with its end.
  pub record Proto : Type 1 where
    pub Keys : Type 0
    pub proto_init : Bool
    pub proto_load_keys : Text → Text → Option Keys
    pub proto_connect : Keys → Text → ℤ → Option w.Conn
    pub proto_close : w.Conn → w.Conn

  -- What the program meets: the answers of malloc, realloc and calloc, the standard input, and what
  -- the list of entries gets from the terminal.
  pub record Meets : Type 0 where
    pub malloc_ok : Bool
    pub heap : List Bool
    pub calloc_ok : Bool
    pub input : Text
    pub terminal : List ListInput

  -- The exit status, what is printed, the connection in the end, if there was one, and the files.
  pub record Exit : Type 0 where
    pub status : ℕ
    pub out : List Text
    pub conn : Option w.Conn
    pub files : Files

  -- --post: one entry from the standard input.
  unfoldable pub post_stdin : (pr : Proto) → Meets → ℤ → w.Conn → Files → Exit
  post_stdin pr m entry_at conn files = elim (read_stdin m.malloc_ok m.heap m.input) [
    | none ↦ record { status = 1; out = []; conn = some (pr.proto_close conn); files = files }
    | some b ↦
        let (id, c1) = net_post_entry w (c_string b.buf) entry_at conn in
        let c2 = pr.proto_close c1 in
        if ltb_ℤ id (pos 0)
        then record { status = 1; out = []; conn = some c2; files = files }
        else record { status = 0; out = print_int id ∷ []; conn = some c2; files = files }
  ]

  -- The steps behind the options.
  unfoldable pub main_options : (pr : Proto) → Meets → Options → Files → Exit
  main_options pr m o files =
      let quits : Exit = record { status = 1; out = []; conn = none; files = files } in
      elim (pr.proto_load_keys o.auth_sk o.enc_sk) [
        | none ↦ quits
        | some keys ↦ elim (pr.proto_connect keys o.host o.port) [
          | none ↦ quits
          | some conn ↦
              let s = screen_list w o.entry_at m.calloc_ok m.terminal conn files in
              if o.post_mode then post_stdin pr m o.entry_at conn files else record {
                status = 0;
                out = [];
                conn = some (pr.proto_close s.conn);
                files = s.files;
              }
        ]
      ]

  unfoldable pub main : Proto → Calendar → Meets → List Opt → Files → Exit
  main pr cal m opts files =
      if not pr.proto_init
      then record { status = 1; out = []; conn = none; files = files }
      else elim (read_options cal default_options opts) [
        | stops status out ↦ record { status = status; out = out; conn = none; files = files }
        | go_on o ↦ main_options pr m o files
      ]
