-- ===== src/Tsh/Parse.antt =====
-- The command-line parser of the shell: assign3/tsh-parse.c.
-- A command is the list of its bytes up to the terminating 0. The C code cuts the buffer in place and
-- hands out pointers; here a token is the text from its pointer up to the 0 that ends it.
pub mod Termination
pub mod Items
pub mod RoundTrip
pub mod Command
pub mod Errors
use cs.Prelude.{
  ℕ, zero, suc, Bool, true, false, Option, none, some, List, [], ◌∷◌, ◌++◌, ltb, ◌==◌, not, ◌&&◌,
  ◌||◌, if◌then◌else◌, length, is_some,
}
use cs.Tsh.Jobs.{Text}

pub data ParseState : Type 0 where
  normal infile outfile : ParseState

pub data Message : Type 0 where
  multiple_input multiple_output unmatched_quote too_many_tokens missing_file : Message

-- The variables of the loop: `count` is the length of `arguments`.
pub record Scan : Type 0 where
  pub state : ParseState
  pub arguments : List Text
  pub infile : Option Text
  pub outfile : Option Text
  pub message : Option Message

-- What the caller gets; `arguments` stands for the array up to its NULL.
pub record Parsed : Type 0 where
  pub arguments : List Text
  pub infile : Option Text
  pub outfile : Option Text
  pub background : Bool
  pub message : Option Message

abbrev pub is_normal : ParseState → Bool
is_normal normal = true
is_normal _ = false

abbrev pub peek : Text → ℕ
peek [] = 0
peek (c ∷ _) = c

abbrev pub is_whitespace : ℕ → Bool
is_whitespace c = c == b' ' || c == 9 || c == 10 || c == 13

-- `command += strspn(command, kWhitespace)`
unfoldable pub skip_whitespace : Text → Text
skip_whitespace [] = []
skip_whitespace (c ∷ cs) = if is_whitespace c then skip_whitespace cs else c ∷ cs

-- `strchr("<>", *command) != NULL`, which holds of the terminating 0 too.
abbrev pub at_redirection : Text → Bool
at_redirection command = peek command == b'<' || peek command == b'>' || peek command == 0

-- `strchr(command, termch)`: the text before it, and the text after it if it is there.
unfoldable pub split_at : ℕ → Text → Text × Option Text
split_at term [] = ([], none)
split_at term (c ∷ cs) =
    let (token, rest) = split_at term cs in if c == term then ([], some cs) else (c ∷ token, rest)

-- Where one round of the loop goes: out of the loop, or on with the rest of the command.
pub data Next : Type 0 where
  stop : Scan → Next
  go : Text → Scan → Next

abbrev pub abandon : Message → Scan → Scan
abandon m s = record s { arguments = []; message = some m }

-- The `<` or `>` in the normal state. The first clause is not reached.
abbrev pub redirect : Text → Scan → Next
redirect [] s = stop s
redirect (c ∷ cs) s =
    if c == b'<' && is_some s.infile
    then stop (abandon multiple_input s)
    else if c == b'>' && is_some s.outfile
    then stop (abandon multiple_output s)
    else go cs (record s { state = if c == b'<' then infile else outfile })

-- The token goes where the state says, and the state is normal again.
abbrev pub store_token : ParseState → Text → Scan → Scan
store_token normal token s = record s { state = normal; arguments = s.arguments ++ token ∷ [] }
store_token infile token s = record s { state = normal; infile = some token }
store_token outfile token s = record s { state = normal; outfile = some token }

abbrev pub after_token : Bool → Option Text → Scan → Next
after_token quoted none s = stop (if quoted then abandon unmatched_quote s else s)
after_token quoted (some rest) s = go rest s

abbrev pub take_token : Bool → Text → Scan → Next
take_token quoted command s =
    let (token, rest) = split_at (if quoted then 39 else b' ') command in
    if is_normal s.state && not quoted && at_redirection command
    then redirect command s
    else if not (is_normal s.state) && at_redirection command
    then stop s
    else after_token quoted rest (store_token s.state token s)

abbrev pub take_quoted : Text → Scan → Next
take_quoted [] s = stop s
take_quoted (c ∷ cs) s = if c == 39 then take_token true cs s else take_token false (c ∷ cs) s

-- One round of the loop, behind `command += strspn(...)`.
unfoldable pub round : ℕ → Text → Scan → Next
unfolding split_at
round max command s =
    if length s.arguments == max || peek command == 0 then stop s else take_quoted command s

-- Each round drops a byte, so the length of the command is fuel enough.
unfoldable pub scan : ℕ → ℕ → Text → Scan → Option Scan
scan zero max command s = none
scan (suc f) max command s = elim (round max (skip_whitespace command) s) [
  | stop s' ↦ some s'
  | go rest s' ↦ scan f max rest s'
]

abbrev pub start : Scan
start = record { state = normal; arguments = []; infile = none; outfile = none; message = none }

-- The checks behind the loop.
unfoldable pub check_scan : ℕ → Scan → Scan
check_scan max s =
    if length s.arguments == max
    then abandon too_many_tokens s
    else if not (is_normal s.state)
    then abandon missing_file s
    else s

unfoldable pub last_starts_with : ℕ → List Text → Bool
last_starts_with c [] = false
last_starts_with c (a ∷ []) = peek a == c
last_starts_with c (a ∷ b ∷ as') = last_starts_with c (b ∷ as')

unfoldable pub drop_last : List Text → List Text
drop_last [] = []
drop_last (a ∷ []) = []
drop_last (a ∷ b ∷ as') = a ∷ drop_last (b ∷ as')

-- The last argument is dropped if it begins with `&`.
unfoldable pub parsed : Scan → Parsed
unfolding last_starts_with drop_last
parsed s = record {
  arguments = if last_starts_with b'&' s.arguments then drop_last s.arguments else s.arguments;
  infile = s.infile;
  outfile = s.outfile;
  background = last_starts_with b'&' s.arguments;
  message = s.message;
}

-- `none` stands for the exit of `exitUnless`, and for the loop out of fuel.
unfoldable pub parse_line : ℕ → Text → Option Parsed
unfolding scan check_scan parsed
parse_line max command =
    if ltb 1 max
    then elim (scan (suc (length command)) max command start) [
      | none ↦ none
      | some s ↦ some (parsed (check_scan max s))
    ]
    else none
