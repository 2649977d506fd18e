-- ===== src/Files.antt =====
-- A directory of one kind of file: what stands at each name. A write replaces the file at its name
-- whole (`atomic_write_text`), under the file's lock.
use axcalib.Prelude.{String, ◌≡◌, refl, Option, some, eq_refl, ◌==◌, string_eq, if◌then◌else◌}

abbrev pub Files {ℓ} : Type ℓ → Type ℓ
Files A = String → Option A

module _ {ℓ} {A : Type ℓ} where
  unfoldable pub write : String → A → Files A → Files A
  write name content files other = if name == other then some content else files other

  pub write-at :
      (name : String) (content : A) (files : Files A) (other : String)
      → write name content files other ≡ (if name == other then some content else files other)
  unfolding write
  write-at name content files other = refl

  pub write_self :
      (name : String) (content : A) (files : Files A) → write name content files name ≡ some content
  unfolding write
  write_self name content files = rw (eq_refl name)
