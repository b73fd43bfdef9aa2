-- ===== src/Tsh/Tests/Lines.antt =====
-- Command lines through assign3/tsh-parse.c.
use cs.Prelude.{
  ◌≡◌, ◌<◌, refl, true, false, none, some, List, [], ◌∷◌, ◌++◌, arith, length, is_some,
}
use cs.Tsh.Jobs.{Text}
use cs.Tsh.Parse.{
  Parsed, missing_file, last_starts_with, parse_line, round, skip_whitespace, scan, split_at,
  check_scan, parsed,
}
use cs.Tsh.Parse.Items.{Item, argument, input, quoted, bare, print_items}
use cs.Tsh.Parse.Command.{
  arguments_of, input_of, output_of, parse_line-print_items, parse_line-background,
}
use cs.Tsh.Parse.Errors.{parse_line_bounds}
use cs.Tsh.Parse.Termination.{parse_line_total}

-- `cat < in 'a b'`
abbrev cat_items : List Item
cat_items =
    argument (bare (b'c' ∷ b'a' ∷ b't' ∷ []))
    ∷ input (bare (b'i' ∷ b'n' ∷ []))
    ∷ argument (quoted (b'a' ∷ b' ' ∷ b'b' ∷ []))
    ∷ []

cat_line : Text
cat_line =
    b'c' ∷ b'a' ∷ b't' ∷ b' ' ∷ b'<' ∷ b' ' ∷ b'i' ∷ b'n' ∷ b' ' ∷ 39 ∷ b'a' ∷ b' ' ∷ b'b' ∷ 39
    ∷ b' ' ∷ []

cat_items-printed : print_items cat_items ≡ cat_line
unfolding print_items cat_line
cat_items-printed = refl

parse_line-print_items_example :
    parse_line 128 (print_items cat_items)
    ≡ some (record {
      arguments = arguments_of cat_items;
      infile = input_of cat_items;
      outfile = output_of cat_items;
      background = false;
      message = none;
    })
unfolding arguments_of
parse_line-print_items_example =
    parse_line-print_items 128 2 cat_items (omega arith) (omega arith) (ground arith)
      (unfold last_starts_with in refl)

parse_line-background_example :
    parse_line 128 (print_items (cat_items ++ argument (bare (b'&' ∷ b'&' ∷ [])) ∷ []))
    ≡ some (record {
      arguments = arguments_of cat_items;
      infile = input_of cat_items;
      outfile = output_of cat_items;
      background = true;
      message = none;
    })
parse_line-background_example =
    parse_line-background 128 3 cat_items (bare (b'&' ∷ b'&' ∷ [])) (omega arith) (omega arith)
      (ground arith) refl

-- `a <`
abbrev no_file : Text
no_file = b'a' ∷ b' ' ∷ b'<' ∷ []

abbrev no_file_parsed : Parsed
no_file_parsed = record {
  arguments = [];
  infile = none;
  outfile = none;
  background = false;
  message = some missing_file;
}

parse_line_bounds_example :
    (length no_file_parsed.arguments < 128)
    × (is_some no_file_parsed.message ≡ true → no_file_parsed.arguments ≡ [])
unfolding parse_line round skip_whitespace
parse_line_bounds_example = parse_line_bounds 128 no_file no_file_parsed refl

parse_line_total_example : (r : Parsed) × (parse_line 128 no_file ≡ some r)
parse_line_total_example = parse_line_total 128 no_file (omega arith)

-- `cat < '<f'`: a file name in quotes that begins with `<` is refused.
abbrev quoted_redirection : Text
quoted_redirection = b'c' ∷ b'a' ∷ b't' ∷ b' ' ∷ b'<' ∷ b' ' ∷ 39 ∷ b'<' ∷ b'f' ∷ 39 ∷ []

quoted_redirection-refused :
    parse_line 128 quoted_redirection
    ≡ some (record {
      arguments = [];
      infile = none;
      outfile = none;
      background = false;
      message = some missing_file;
    })
unfolding parse_line scan round skip_whitespace split_at check_scan parsed last_starts_with
quoted_redirection-refused = refl
