-- ===== src/Shell/Files/Laws.antt =====
-- The commands with a list of names do their operation on each of them.
use miyar_os.Base.{
  ℕ, zero, suc, ◌+◌, ◌<◌, ◌≡◌, refl, Option, none, some, List, [], ◌∷◌, take, map, length, inl, inr,
  Option-cases, arith,
}
use miyar_os.Fs.Disk.{Drive}
use miyar_os.Shell.{Shell}
use miyar_os.Shell.Parse.Words.{words, finished, next, next_lem}
use miyar_os.Shell.Files.{Operation, on_name, each_argument, all_arguments}

module _ {D : Drive} where
  -- The operation on every name of a list, in its order.
  unfoldable pub on_names : Operation D → List (List ℕ) → Shell D → Option (Shell D)
  on_names op [] s = some s
  on_names op (name ∷ names) s = elim (on_name op name s) [
    | none ↦ none
    | some s' ↦ on_names op names s'
  ]

  -- What the loop does after a word.
  each_argument-words :
      (n : ℕ) (op : Operation D) (args : List ℕ) (s : Shell D)
      → length args < n
      → each_argument n op args s ≡ on_names op (map (take 63) (words args)) s
  unfolding each_argument on_names
  each_argument-words zero op args s enough = absurd (omega (arith, enough))
  each_argument-words (suc n) op args s enough = elim (next_lem 63 args) [
    | finished w g ↦ rw (each_argument, g, w) refl
    | next word rest w g l ↦ elim (Option-cases (on_name op (take 63 word) s)) [
      | inl e ↦ rw (each_argument, g, w, e, on_names) refl
      | inr (s', e) ↦
          rw (each_argument, g, w, e, on_names)
            (each_argument-words n op rest s' (omega (arith, enough, l)))
    ]
  ]

  -- The loop of `touch`, `mkdir`, `rm` and `rmdir` does its operation on each word of the
  -- arguments, in their order, each cut to its first 63 bytes, and goes no further only where an
  -- operation does not end: the number of its rounds is bounded by the length of the arguments.
  pub all_arguments-words :
      (op : Operation D) (args : List ℕ) (s : Shell D)
      → all_arguments op args s ≡ on_names op (map (take 63) (words args)) s
  unfolding all_arguments
  all_arguments-words op args s = each_argument-words (length args + 1) op args s (omega arith)
