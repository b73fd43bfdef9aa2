-- ===== src/Tsh/Parse/Command.antt =====
-- What assign3/tsh-parse.c returns for a well-formed command line.
use mathlib.Core.List.{append-nil, append_assoc}
use cs.Prelude.{
  lt→ltb, ℕ, suc, ◌-◌, ◌<◌, ◌≤◌, ◌≡◌, refl, ap, Bool, true, false, Option, none, some, List, [],
  ◌∷◌, ◌++◌, ◌==◌, length, is_some, arith, ◌∙◌,
}
use cs.Tsh.Jobs.{Text}
use cs.Tsh.Parse.{
  normal, infile, outfile, Scan, peek, store_token, start, check_scan, last_starts_with, drop_last,
  parsed, parse_line,
}
use cs.Tsh.Parse.RoundTrip.{scan-collect}
use cs.Tsh.Parse.Items.{Token, Item, argument, input, output, text, print_items, collect, IsCommand}

-- The arguments among the items, and the files.
unfoldable pub arguments_of : List Item → List Text
arguments_of [] = []
arguments_of (argument t ∷ is) = text t ∷ arguments_of is
arguments_of (input t ∷ is) = arguments_of is
arguments_of (output t ∷ is) = arguments_of is

unfoldable pub input_of : List Item → Option Text
input_of [] = none
input_of (argument t ∷ is) = input_of is
input_of (input t ∷ is) = some (text t)
input_of (output t ∷ is) = input_of is

unfoldable pub output_of : List Item → Option Text
output_of [] = none
output_of (argument t ∷ is) = output_of is
output_of (input t ∷ is) = output_of is
output_of (output t ∷ is) = some (text t)

or_else : Option Text → Option Text → Option Text
or_else none o = o
or_else (some t) o = some t

-- The scan after the items, in closed form.
collect-lem :
    (n : ℕ) (i o : Bool) (is : List Item) (s : Scan)
    → IsCommand i o n is
    → s.state ≡ normal
    → is_some s.infile ≡ i
    → is_some s.outfile ≡ o
    → collect is s ≡ record {
      state = normal;
      arguments = s.arguments ++ arguments_of is;
      infile = or_else s.infile (input_of is);
      outfile = or_else s.outfile (output_of is);
      message = s.message;
    }
unfolding collect arguments_of input_of output_of or_else
collect-lem n i o [] s c st ei eo = ground (arith, append-nil s.arguments)
collect-lem n i o (argument t ∷ is) s c st ei eo =
    collect-lem (n - 1) i o is (store_token normal (text t) s) c.2 refl ei eo ∙ simp append_assoc
collect-lem n i o (input t ∷ is) s c st ei eo =
    collect-lem n true o is (store_token infile (text t) s) c.2 refl refl eo ∙ ground (arith, c.0)
collect-lem n i o (output t ∷ is) s c st ei eo =
    collect-lem n i true is (store_token outfile (text t) s) c.2 refl ei refl ∙ ground (arith, c.0)

length-arguments_of :
    (n : ℕ) (i o : Bool) (is : List Item) → IsCommand i o n is → length (arguments_of is) ≤ n
unfolding arguments_of
length-arguments_of n i o [] c = omega arith
length-arguments_of n i o (argument t ∷ is) c =
    omega (arith, length-arguments_of (n - 1) i o is c.2)
length-arguments_of n i o (input t ∷ is) c = length-arguments_of n true o is c.2
length-arguments_of n i o (output t ∷ is) c = length-arguments_of n i true is c.2

-- The parser reads a printed command back to its items, up to the test for `&`.
pub parse_line-parsed :
    (max n : ℕ) (is : List Item)
    → 1 < max
    → n < max
    → IsCommand false false n is
    → parse_line max (print_items is)
      ≡ some (
          parsed (record {
            state = normal;
            arguments = arguments_of is;
            infile = input_of is;
            outfile = output_of is;
            message = none;
          }))
unfolding parse_line or_else
parse_line-parsed max n is two room c =
    let s = record start {
      arguments = arguments_of is;
      infile = input_of is;
      outfile = output_of is;
    } in
    let run =
      scan-collect (suc (length (print_items is))) max n false false is start (omega arith) c
        (omega arith) refl refl refl in
    let closed : collect is start ≡ s = collect-lem n false false is start c refl refl refl in
    let fits = length-arguments_of n false false is c in
    let passes : check_scan max s ≡ s = unfold check_scan in ground (arith, fits) in
    rw (lt→ltb 1 max two, run, closed, passes)

-- For an array of two places or more, with room for the words and the NULL, take a command of words
-- with at most one input and one output redirection at any places among them, where a space follows
-- each word and each `<` or `>`. A word stands in quotes, with no quote and no NUL inside, or is bare,
-- with no space, and begins with no whitespace, quote, `<`, `>` or NUL; and the word that names the
-- file of a redirection does not begin with `<` or `>`, in quotes either. Such a command is read back word
-- for word, and runs in the foreground, if its last argument does not begin with `&`.
pub parse_line-print_items :
    (max n : ℕ) (is : List Item)
    → 1 < max
    → n < max
    → IsCommand false false n is
    → last_starts_with b'&' (arguments_of is) ≡ false
    → parse_line max (print_items is)
      ≡ some (record {
        arguments = arguments_of is;
        infile = input_of is;
        outfile = output_of is;
        background = false;
        message = none;
      })
unfolding parsed
parse_line-print_items max n is two room c plain = rw (parse_line-parsed max n is two room c, plain)

arguments_of-append :
    (is : List Item) (t : Token)
    → arguments_of (is ++ argument t ∷ []) ≡ arguments_of is ++ text t ∷ []
unfolding arguments_of
arguments_of-append [] t = refl
arguments_of-append (argument u ∷ is) t = ap (λ r. text u ∷ r) (arguments_of-append is t)
arguments_of-append (input u ∷ is) t = arguments_of-append is t
arguments_of-append (output u ∷ is) t = arguments_of-append is t

input_of-append :
    (is : List Item) (t : Token)
    → (input_of (is ++ argument t ∷ []) ≡ input_of is)
      × (output_of (is ++ argument t ∷ []) ≡ output_of is)
unfolding input_of output_of
input_of-append [] t = (refl, refl)
input_of-append (argument u ∷ is) t = input_of-append is t
input_of-append (input u ∷ is) t = (refl, (input_of-append is t).1)
input_of-append (output u ∷ is) t = ((input_of-append is t).0, refl)

last-append :
    (c : ℕ) (ws : List Text) (w : Text)
    → (last_starts_with c (ws ++ w ∷ []) ≡ (peek w == c)) × (drop_last (ws ++ w ∷ []) ≡ ws)
unfolding last_starts_with drop_last
last-append c [] w = (refl, refl)
last-append c (v ∷ []) w = (refl, refl)
last-append c (v ∷ u ∷ ws) w = let (l, d) = last-append c (u ∷ ws) w in (l, ap (λ r. v ∷ r) d)

-- For an array of two places or more, with room for the words and the NULL, take a command of words
-- with at most one input and one output redirection at any places among them, where a space follows
-- each word and each `<` or `>`. A word stands in quotes, with no quote and no NUL inside, or is bare,
-- with no space, and begins with no whitespace, quote, `<`, `>` or NUL; and the word that names the
-- file of a redirection does not begin with `<` or `>`, in quotes either. If the command ends in an argument
-- that begins with `&`, quoted or not, that argument is dropped and the command runs in the background;
-- the other words are read back word for word.
pub parse_line-background :
    (max n : ℕ) (is : List Item) (t : Token)
    → 1 < max
    → n < max
    → IsCommand false false n (is ++ argument t ∷ [])
    → peek (text t) ≡ b'&'
    → parse_line max (print_items (is ++ argument t ∷ []))
      ≡ some (record {
        arguments = arguments_of is;
        infile = input_of is;
        outfile = output_of is;
        background = true;
        message = none;
      })
unfolding parsed
parse_line-background max n is t two room c amp =
    let (starts, dropped) = last-append b'&' (arguments_of is) (text t) in
    let ends : (peek (text t) == b'&') ≡ true = ground arith in
    rw (
      parse_line-parsed max n (is ++ argument t ∷ []) two room c,
      arguments_of-append is t,
      (input_of-append is t).0,
      (input_of-append is t).1,
      starts,
      dropped,
      ends,
    )
