-- ===== src/Maintenance/Moves.antt =====
-- What a move leaves of a tree of files (src/axcalib/runtime/maintenance.py).
use axcalib.Prelude.{
  String, ◌≡◌, ◌↔◌, refl, ◌∙◌, true, false, none, some, ◌∷◌, arith, ◌==◌, string_eq, list_eq,
  list_beq_iff,
}
use axcalib.Maintenance.{
  FilePath, StoredFile, Tree, move, Area, archive, quarantine, area_name, excluded,
}

pub path_iff : (p q : FilePath) → ((p == q) ≡ true) ↔ (p ≡ q)
path_iff p q = list_beq_iff string_eq p q

-- The place of a path in an area, for the run with an ID.
abbrev pub within : String → Area → FilePath → FilePath
within id area p = area_name area ∷ id ∷ p

area-excluded : (id : String) (area : Area) (p : FilePath) → excluded (within id area p) ≡ true
area-excluded id archive p = refl
area-excluded id quarantine p = refl

pub within-differs :
    (id : String) (area : Area) (p q : FilePath)
    → excluded q ≡ false
    → (within id area p == q) ≡ false
within-differs id area p q x =
    ground (arith, path_iff (within id area p) q, area-excluded id area p)

pub within-injective :
    (id : String) (a b : Area) (p q : FilePath)
    → (p == q) ≡ false
    → (within id a p == within id b q) ≡ false
within-injective id a b p q d = ground arith

-- No file that may move has a file where it would go.
abbrev pub IsFree : String → Tree → Type 0
IsFree id t =
    (area : Area) (p : FilePath) (f : StoredFile)
    → excluded p ≡ false
    → t p ≡ some f
    → t (within id area p) ≡ none

pub move-IsFree :
    (id : String) (area : Area) (q : FilePath) (t : Tree)
    → excluded q ≡ false
    → IsFree id t
    → IsFree id (move q (within id area q) t)
move-IsFree id area q t x i a p f y h =
    ground
      (arith, within-differs id area q p y, path_iff q p, within-injective id area a q p, i a p f y)

-- What was moved: nothing stands at its path, and it stands in the area.
abbrev pub IsMoved : String → Area → FilePath → StoredFile → Tree → Type 0
IsMoved id area p f t = (excluded p ≡ false) × (t p ≡ none) × (t (within id area p) ≡ some f)

pub move-IsMoved :
    (id : String) (area : Area) (p : FilePath) (f : StoredFile) (t : Tree)
    → excluded p ≡ false
    → t p ≡ some f
    → IsMoved id area p f (move p (within id area p) t)
move-IsMoved id area p f t x h = (
  x,
  ground (arith, within-differs id area p p x, path_iff p p),
  ground (arith, h, path_iff (within id area p) (within id area p)),
)

-- A move of another file leaves a file, and what was moved, where it is.
pub move-other :
    (id : String) (area : Area) (q p : FilePath) (f : StoredFile) (t : Tree)
    → (q == p) ≡ false
    → (within id area q == p) ≡ false
    → move q (within id area q) t p ≡ t p
move-other id area q p f t d e = ground (arith, d, e)

pub move-keeps_IsMoved :
    (id : String) (area a : Area) (q p : FilePath) (f g : StoredFile) (t : Tree)
    → excluded q ≡ false
    → t q ≡ some g
    → IsMoved id a p f t
    → IsMoved id a p f (move q (within id area q) t)
move-keeps_IsMoved id area a q p f g t x h (y, n, m) =
    let d : (q == p) ≡ false = ground (arith, path_iff q p, h, n) in
    (
      y,
      move-other id area q p f t d (within-differs id area q p y) ∙ n,
      move-other id area q (within id a p) f t
            (ground (arith, path_iff q (within id a p), area-excluded id a p, x))
            (within-injective id area a q p d)
          ∙ m,
    )
