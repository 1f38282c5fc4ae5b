-- ===== src/Admin/Options.antt =====
-- parse_opt of the admin tool `prun`: Python's getopt with the options "c:" and "command=".
use prun.Base.{
  Bool, true, false, ◌&&◌, Option, none, some, List, [], ◌∷◌, ◌++◌, Text, codes, ◌==◌, is_empty,
  if◌then◌else◌,
}

-- The globals that parse_opt assigns, and the lines that it prints.
pub record Options : Type 0 where
  pub master_host : Text
  pub command : Text
  pub printed : List Text

pub data Parsed : Type 0 where
  options : Options → Parsed
  usage : Parsed

abbrev pub default_options : Options
default_options = record { master_host = codes "localhost"; command = []; printed = [] }

-- COMMAND = opt[1]; print(COMMAND)
abbrev pub set_command : Text → Options → Options
set_command v o = record o { command = v; printed = o.printed ++ v ∷ [] }

-- The first positional argument is the host, the others are ignored.
abbrev pub positional : List Text → Options → Parsed
positional [] o = options o
positional (host ∷ rest) o = options (record o { master_host = host })

abbrev pub starts_with_dash : Text → Bool
starts_with_dash [] = false
starts_with_dash (c ∷ s) = c == b'-'

abbrev pub is_prefix : Text → Text → Bool
is_prefix [] t = true
is_prefix (c ∷ s) [] = false
is_prefix (c ∷ s) (d ∷ t) = c == d && is_prefix s t

-- opt.partition('='): the name, and what stands behind the first '=' if there is one
abbrev pub split_equals : Text → Text × Option Text
split_equals [] = ([], none)
split_equals (c ∷ s) = let (n, v) = split_equals s in if c == b'=' then ([], some s) else (c ∷ n, v)

-- One option word, without its dashes: an error, an option with its value in the same word, or one
-- whose value is the next word.
pub data Word : Type 0 where
  unknown wants_value : Word
  value : Text → Word

-- do_shorts with "c:"
abbrev pub short : Text → Word
short [] = unknown
short (c ∷ rest) =
    if c == b'c' then (if is_empty rest then wants_value else value rest) else unknown

abbrev pub long_value : Option Text → Word
long_value none = wants_value
long_value (some v) = value v

-- do_longs with "command=": any prefix of the name selects it
abbrev pub long : Text → Word
long s =
    let (n, v) = split_equals s in if is_prefix n (codes "command=") then long_value v else unknown

-- What getopt makes of a word that begins with a dash: `none` ends the options.
pub data Kind : Type 0 where
  operand terminator : Kind
  option : Word → Kind

unfoldable pub classify : Text → Kind
classify [] = operand
classify (c ∷ []) = operand
classify (c ∷ d ∷ s) =
    if c == b'-'
    then (if d == b'-'
        then (if is_empty s then terminator else option (long s))
        else option (short (d ∷ s)))
    else operand

-- The loop of getopt.getopt, with parse_opt's loop over its options folded in.
unfoldable pub parse_args : List Text → Options → Parsed
parse_args [] o = options o
parse_args (a ∷ []) o = elim (classify a) [
  | operand ↦ positional (a ∷ []) o
  | terminator ↦ options o
  | option (value v) ↦ options (set_command v o)
  | option w ↦ usage
]
parse_args (a ∷ b ∷ rest) o = elim (classify a) [
  | operand ↦ positional (a ∷ b ∷ rest) o
  | terminator ↦ positional (b ∷ rest) o
  | option (value v) ↦ parse_args (b ∷ rest) (set_command v o)
  | option wants_value ↦ parse_args rest (set_command b o)
  | option unknown ↦ usage
]

-- parse_opt. On a usage error nothing is printed but the usage line, and the program exits.
unfoldable pub parse_opt : List Text → Parsed
unfolding parse_args classify
parse_opt argv = parse_args argv default_options
