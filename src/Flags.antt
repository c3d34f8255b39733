-- ===== src/Flags.antt =====
-- The package `flag` of Go's library, as far as cmd/tracker/main.go uses it: flags of texts and of
-- integers, under `flag.ExitOnError`.
use Prim.Native.Char.{Char, code}
use public_transport_tracker.Base.{
  string_eq, ℕ, Bool, Option, none, some, List, [], ◌∷◌, String, if◌then◌else◌, ◌==◌, nat_beq, ◌||◌,
}
use public_transport_tracker.Base.Int.{ℤ, pos}
use public_transport_tracker.GoMap.{GoMap, lookup, assign}

pub data FlagValue : Type 0 where
  text : String → FlagValue
  number : ℤ → FlagValue

-- The flags of a set, with their defaults or the values that they have got.
abbrev pub FlagSet : Type 0
FlagSet = GoMap String FlagValue

-- What `Parse` comes to: a value, or the exit of the process with a status.
pub data Parsed (A : Type 0) : Type 0 where
  parsed : A → Parsed A
  exits : ℕ → Parsed A

-- One argument: no flag, "--", a flag that is spelled wrongly, or a flag, maybe with "=" and a value.
pub data Argument : Type 0 where
  operand terminator bad_syntax : Argument
  named : String → Option String → Argument

abbrev is_dash : Char → Bool
is_dash c = nat_beq (code c) 45

abbrev is_equals : Char → Bool
is_equals c = nat_beq (code c) 61

-- The text up to the first "=", and the text behind it.
unfoldable pub cut : String → String × Option String
cut String.[] = ("", none)
cut (String.◌∷◌ c s) =
    let (name, value) = cut s in if is_equals c then ("", some s) else (String.◌∷◌ c name, value)

abbrev read_name : String → Argument
read_name String.[] = bad_syntax
read_name (String.◌∷◌ c s) =
    let (name, value) = cut s in
    if is_dash c || is_equals c then bad_syntax else named (String.◌∷◌ c name) value

abbrev behind_two_dashes : String → Argument
behind_two_dashes String.[] = terminator
behind_two_dashes (String.◌∷◌ c s) = read_name (String.◌∷◌ c s)

abbrev behind_dash : String → Argument
behind_dash String.[] = operand
behind_dash (String.◌∷◌ c s) = if is_dash c then behind_two_dashes s else read_name (String.◌∷◌ c s)

unfoldable pub read_argument : String → Argument
unfolding cut
read_argument String.[] = operand
read_argument (String.◌∷◌ c s) = if is_dash c then behind_dash s else operand

-- The status for a name that is not in the set.
abbrev unknown : String → ℕ
unknown name = if name == "help" || name == "h" then 0 else 2

-- `parse_int` is `strconv.ParseInt(s, 0, 64)`.
module _ (parse_int : String → Option ℤ) where
  -- `Value.Set`
  abbrev set_value : FlagValue → String → Option FlagValue
  set_value (text old) v = some (text v)
  set_value (number old) v = elim (parse_int v) [ none ↦ none | some n ↦ some (number n) ]

  unfoldable pub set_flag : String → String → FlagSet → Parsed FlagSet
  set_flag name v flags = elim (lookup name flags) [
    | none ↦ exits (unknown name)
    | some old ↦ elim (set_value old v) [
      | none ↦ exits 2
      | some value ↦ parsed (assign name value flags)
    ]
  ]

  -- A flag that needs an argument and has none.
  abbrev missing : String → FlagSet → ℕ
  missing name flags = elim (lookup name flags) [ none ↦ unknown name | some old ↦ 2 ]

  -- The loop of `Parse`.
  unfoldable pub parse : List String → FlagSet → Parsed FlagSet
  unfolding read_argument set_flag
  parse [] flags = parsed flags
  parse (s ∷ []) flags = elim (read_argument s) [
    | operand ↦ parsed flags
    | terminator ↦ parsed flags
    | bad_syntax ↦ exits 2
    | named name value ↦ elim value [
      | some v ↦ set_flag name v flags
      | none ↦ exits (missing name flags)
    ]
  ]
  parse (s ∷ next ∷ args) flags = elim (read_argument s) [
    | operand ↦ parsed flags
    | terminator ↦ parsed flags
    | bad_syntax ↦ exits 2
    | named name value ↦ elim value [
      | some v ↦ elim (set_flag name v flags) [
        | exits n ↦ exits n
        | parsed flags' ↦ parse (next ∷ args) flags'
      ]
      | none ↦ elim (set_flag name next flags) [
        | exits n ↦ exits n
        | parsed flags' ↦ parse args flags'
      ]
    ]
  ]

-- *importCmd.String(name, …)
abbrev pub text_at : String → FlagSet → String
text_at name flags = elim (lookup name flags) [
  | none ↦ ""
  | some value ↦ elim value [ text s ↦ s | number n ↦ "" ]
]

abbrev pub number_at : String → FlagSet → ℤ
number_at name flags = elim (lookup name flags) [
  | none ↦ pos 0
  | some value ↦ elim value [ text s ↦ pos 0 | number n ↦ n ]
]
