-- ===== src/Ctl/Apply/Dirty.antt =====
-- The map of the cells that are still to be written, and what the writes come to.
use Prim.Native.Nat.{min}
use userface.Base.{
  ℕ, zero, suc, ◌+◌, ◌-◌, ◌%◌, ◌^◌, ◌≤◌, ◌<◌, ◌≡◌, ◌≢◌, refl, ap, sym, subst, ℕ_discrete, dec_lt,
  ◌∙◌, arith, true, false, ltb, ◌==◌, if◌then◌else◌, List, [], ◌∷◌, ◌++◌, length,
}
use userface.Protocol.Control.{RegWrite, quadlet_write, block_write}
use userface.Mixer.{index_of, mixer_ram}
use userface.Ctl.Apply.{DirtyCells, insert, flush_cells}

-- The value of cell `i` after a write, and after some in their order, had it `x` before. The blocks that
-- the daemon writes lie outside the mixer's RAM.
unfoldable pub stored : ℕ → RegWrite → ℕ → ℕ
stored i (quadlet_write a v) x = if i == index_of a then v else x
stored i (block_write a vs) x = x

unfoldable pub stored_all : ℕ → List RegWrite → ℕ → ℕ
stored_all i [] x = x
stored_all i (w ∷ ws) x = stored_all i ws (stored i w x)

-- The writes that are still to be made.
unfoldable pub pending : DirtyCells → List RegWrite
pending [] = []
pending ((a, v) ∷ rest) = quadlet_write a v ∷ pending rest

abbrev pub IsCell : ℕ → Type 0
IsCell a = (mixer_ram ≤ a) × (a < mixer_ram + 2 ^ 33) × (a % 4 ≡ 0)

abbrev pub Above : ℕ → DirtyCells → Type 0
Above a [] = Unit
Above a ((b, w) ∷ rest) = (a < b) × Above a rest

-- The keys are addresses of cells, each above the one before it.
abbrev pub Ordered : DirtyCells → Type 0
Ordered [] = Unit
Ordered ((a, v) ∷ rest) = IsCell a × Above a rest × Ordered rest

index_of-ne : (a b : ℕ) → IsCell a → IsCell b → a < b → index_of a ≢ index_of b
unfolding index_of
index_of-ne a b (p, q, r) (s, t, u) l e = omega arith

Above-trans : (a b : ℕ) (m : DirtyCells) → a < b → Above b m → Above a m
Above-trans a b [] l h = h
Above-trans a b ((c, w) ∷ rest) l (p, h) = (omega arith, Above-trans a b rest l h)

-- The three places of an `insert`.
insert_cases :
    (P : DirtyCells → Type 0) (a b : ℕ) (x y z : DirtyCells)
    → (a ≡ b → P x)
    → (a < b → P y)
    → (b < a → P z)
    → P (if a == b then x else if ltb a b then y else z)
insert_cases P a b x y z f g h = elim (ℕ_discrete a b) [
  | yes e ↦ let same : (a == b) ≡ true = ground arith in rw same (f e)
  | no n ↦
      let differ : (a == b) ≡ false = ground arith in
      elim (dec_lt a b) [
        | yes l ↦ let less : ltb a b ≡ true = ground arith in rw (differ, less) (g l)
        | no m ↦ let more : ltb a b ≡ false = ground arith in rw (differ, more) (h (omega arith))
      ]
]

insert-Above : (b a v : ℕ) (m : DirtyCells) → b < a → Above b m → Above b (insert a v m)
unfolding insert
insert-Above b a v [] l h = (l, h)
insert-Above b a v ((c, w) ∷ rest) l (p, h) =
    insert_cases (Above b) a c ((a, v) ∷ rest) ((a, v) ∷ (c, w) ∷ rest) ((c, w) ∷ insert a v rest)
      (λ e. (l, h)) (λ e. (l, (p, h))) (λ e. (p, insert-Above b a v rest l h))

pub insert-Ordered : (a v : ℕ) (m : DirtyCells) → IsCell a → Ordered m → Ordered (insert a v m)
unfolding insert
insert-Ordered a v [] c h = (c, tt, tt)
insert-Ordered a v ((b, w) ∷ rest) c (p, q, h) =
    insert_cases Ordered a b ((a, v) ∷ rest) ((a, v) ∷ (b, w) ∷ rest) ((b, w) ∷ insert a v rest)
      (λ e. (c, subst (λ k. Above k rest) (sym e) q, h))
      (λ e. (c, (e, Above-trans a b rest e q), (p, q, h)))
      (λ e. (p, insert-Above b a v rest e q, insert-Ordered a v rest c h))

-- The first write of a cell that no later one reaches can as well be the last.
stored_late :
    (i a v : ℕ) (m : DirtyCells) (x : ℕ)
    → IsCell a
    → Above a m
    → Ordered m
    → stored_all i (pending m) (stored i (quadlet_write a v) x)
      ≡ stored i (quadlet_write a v) (stored_all i (pending m) x)
unfolding stored stored_all pending
stored_late i a v [] x c h o = refl
stored_late i a v ((b, w) ∷ rest) x c (l, h) (p, q, o) =
    let apart = index_of-ne a b c p l in
    let swap : stored i (quadlet_write b w) (stored i (quadlet_write a v) x)
        ≡ stored i (quadlet_write a v) (stored i (quadlet_write b w) x) =
      ground arith in
    ap (stored_all i (pending rest)) swap
    ∙ stored_late i a v rest (stored i (quadlet_write b w) x) c h o

-- A cell that is put into the map is written last, as far as the values go.
pub stored-insert :
    (i a v : ℕ) (m : DirtyCells) (x : ℕ)
    → IsCell a
    → Ordered m
    → stored_all i (pending (insert a v m)) x
      ≡ stored i (quadlet_write a v) (stored_all i (pending m) x)
unfolding insert stored_all pending stored
stored-insert i a v [] x c o = refl
stored-insert i a v ((b, w) ∷ rest) x c (p, q, o) =
    insert_cases
      (λ t.
        stored_all i (pending t) x
        ≡ stored i (quadlet_write a v)
            (stored_all i (pending rest) (stored i (quadlet_write b w) x)))
      a b ((a, v) ∷ rest) ((a, v) ∷ (b, w) ∷ rest) ((b, w) ∷ insert a v rest)
      (λ e.
        let over : stored i (quadlet_write a v) x
            ≡ stored i (quadlet_write a v) (stored i (quadlet_write b w) x) =
          ground arith in
        ap (stored_all i (pending rest)) over
        ∙ stored_late i a v rest (stored i (quadlet_write b w) x) c
            (subst (λ k. Above k rest) (sym e) q) o)
      (λ e. stored_late i a v ((b, w) ∷ rest) x c (e, Above-trans a b rest e q) (p, q, o))
      (λ e. stored-insert i a v rest (stored i (quadlet_write b w) x) c o)

-- Flushing only moves writes from those to be made to those made.
pub flush_cells-pending :
    (n : ℕ) (m : DirtyCells) → (flush_cells n m).0 ++ pending ((flush_cells n m).1) ≡ pending m
unfolding flush_cells pending
flush_cells-pending zero m = refl
flush_cells-pending (suc n) [] = refl
flush_cells-pending (suc n) ((a, v) ∷ rest) = rw (flush_cells-pending n rest)

pub flush_cells-Ordered : (n : ℕ) (m : DirtyCells) → Ordered m → Ordered ((flush_cells n m).1)
unfolding flush_cells
flush_cells-Ordered zero m o = o
flush_cells-Ordered (suc n) [] o = o
flush_cells-Ordered (suc n) ((a, v) ∷ rest) (c, h, o) = flush_cells-Ordered n rest o

pub length-flush_cells :
    (n : ℕ) (m : DirtyCells)
    → (length ((flush_cells n m).0) ≡ min n (length m))
      × (length ((flush_cells n m).1) ≡ length m - n)
unfolding flush_cells
length-flush_cells zero m = (omega arith, omega arith)
length-flush_cells (suc n) [] = (omega arith, omega arith)
length-flush_cells (suc n) ((a, v) ∷ rest) =
    let ih = length-flush_cells n rest in (omega arith, omega arith)

pub stored_all-append :
    (i : ℕ) (ws vs : List RegWrite) (x : ℕ)
    → stored_all i (ws ++ vs) x ≡ stored_all i vs (stored_all i ws x)
unfolding stored_all
stored_all-append i [] vs x = refl
stored_all-append i (w ∷ ws) vs x = stored_all-append i ws vs (stored i w x)
