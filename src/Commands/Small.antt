-- ===== src/Commands/Small.antt =====
-- `do_test`, `do_touch` and `do_publish` of es3/commands.cpp.
pub mod Laws
mod Tests
use extreme_s.Prelude.{
  ℕ, zero, suc, Bool, true, false, not, ◌||◌, ◌&&◌, List, [], ◌∷◌, Option, none, some, Str,
  is_empty, ◌==◌, if◌then◌else◌, Outcome, ok, ◌>>=◌,
}
use extreme_s.S3Path.{S3Path}
use extreme_s.Sync.Tree.{S3Directory, files, subdirs, no_subs}
use extreme_s.Sync.Delete.{Rules}
use extreme_s.Commands.{World, to_int, is_remote, resolve}

-- `subdirs_.empty() && files_.empty()`
abbrev pub nothing_in : S3Directory → Bool
nothing_in d = no_subs (subdirs d) && is_empty (files d)

pub record PublishOptions : Type 0 where
  pub publish_args : List Str
  pub rules : Rules

module _ {W : Type 0} (world : World W) where
  pub do_test : Bool → List Str → W → Outcome (ℕ × W)
  do_test true params w = ok (0, w)
  do_test false [] w = ok (2, w)
  do_test false (a ∷ b ∷ rest) w = ok (2, w)
  do_test false (tgt ∷ []) w =
      if is_remote tgt
      then (resolve world tgt w >>= λ path.
          world.list_root path w >>= λ d. ok (if nothing_in d then 1 else 0, w))
      else ok (if world.exists_at tgt w then 0 else 1, w)

  pub do_touch : Bool → List Str → W → Outcome (ℕ × W)
  do_touch true params w = ok (0, w)
  do_touch false [] w = ok (2, w)
  do_touch false (a ∷ b ∷ rest) w = ok (2, w)
  do_touch false (tgt ∷ []) w =
      if is_remote tgt
      then (resolve world tgt w >>= λ path. world.list_root path w >>= λ d.
          if nothing_in d then (world.upload_empty path w >>= λ w'. ok (0, w')) else ok (0, w))
      else ok (world.touch tgt w)

  -- The loop over the paths.
  publish_all : Rules → List Str → W → Outcome W
  publish_all rules [] w = ok w
  publish_all rules (url ∷ urls) w = resolve world url w >>= λ path.
      world.recursive_publication rules.included rules.excluded path w >>= λ w'.
      publish_all rules urls w'

  published_after : ℕ × W → ℕ × Option ℕ × W
  published_after (failed, w) =
      if not (to_int failed == 0)
      then (to_int failed, none, w)
      else if not (world.tasks_count w == 0)
      then (4, none, w)
      else (0, some (world.published w), w)

  publish_args_of : Rules → List Str → W → Outcome (ℕ × Option ℕ × W)
  unfolding publish_all published_after
  publish_args_of rules [] w = ok (2, none, w)
  publish_args_of rules (a ∷ rest) w =
      publish_all rules (a ∷ rest) w >>= λ w'. ok (published_after (world.run w'))

  -- The code, and the number of files if it is printed.
  pub do_publish : Bool → Option PublishOptions → W → Outcome (ℕ × Option ℕ × W)
  unfolding publish_args_of
  do_publish true options w = ok (0, none, w)
  do_publish false none w = ok (2, none, w)
  do_publish false (some o) w = publish_args_of o.rules o.publish_args w
