-- ===== src/Fs/Pathname.antt =====
-- Absolute path names: assign2/assign1/pathname.c.
pub mod Lookup
pub mod Tokens
use cs.Prelude.{
  ℕ, zero, suc, Bool, true, false, Option, none, some, List, [], ◌∷◌, ◌++◌, ltb, ◌==◌, ◌&&◌,
  if◌then◌else◌, length,
}
use cs.Fs.Image.{M, pure, failure, ◌>>=◌, ◌>>◌, guard}
use cs.Fs.Inode.{Inode, UnixFilesystem, root_inumber}
use cs.Fs.Directory.{Name, directory_findname, directory_findname_optimized}

abbrev pub max_path : ℕ
max_path = 1024

abbrev pub slash : ℕ
slash = 47

abbrev pub starts_with_slash : Name → Bool
starts_with_slash [] = false
starts_with_slash (c ∷ _) = c == slash

abbrev pub validate_pathname_lookup : Name → Bool
validate_pathname_lookup pathname = starts_with_slash pathname && ltb (length pathname) max_path

abbrev pub validate_pathname_lookup_optimized : Name → Bool
validate_pathname_lookup_optimized subpath = ltb (length subpath) max_path

-- The tokens of `strtok(path, "/")`: `word` is the token that is being read.
abbrev pub end_token : Name → List Name → List Name
end_token [] rest = rest
end_token (c ∷ cs) rest = (c ∷ cs) ∷ rest

unfoldable pub tokens_from : Name → Name → List Name
tokens_from word [] = end_token word []
tokens_from word (c ∷ cs) = elim (c == slash) [
  | true ↦ end_token word (tokens_from [] cs)
  | false ↦ tokens_from (word ++ c ∷ []) cs
]

unfoldable pub tokens : Name → List Name
unfolding tokens_from
tokens path = tokens_from [] path

-- The loop over the tokens. `at` is the address of the local inode of `directory_findname`.
unfoldable pub walk : UnixFilesystem → (at : ℕ) → List Name → (inumber : ℕ) → M ℕ
unfolding directory_findname
walk fs at [] inumber = pure inumber
walk fs at (sub_path ∷ rest) inumber = do
  member ← directory_findname fs sub_path inumber at
  walk fs at rest member.d_inumber

unfoldable pub pathname_lookup : UnixFilesystem → (at : ℕ) → Name → M ℕ
unfolding walk tokens
pathname_lookup fs at pathname = do
  guard (validate_pathname_lookup pathname)
  walk fs at (tokens pathname) root_inumber

unfoldable pub pathname_lookup_optimized :
    UnixFilesystem → Name → (at : ℕ) → Inode → (iget_ok : Bool) → M ℕ
unfolding directory_findname_optimized
pathname_lookup_optimized fs subpath at parentinode iget_ok = do
  guard (validate_pathname_lookup_optimized subpath)
  member ← directory_findname_optimized fs subpath at parentinode iget_ok
  pure member.d_inumber
