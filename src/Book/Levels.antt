-- ===== src/Book/Levels.antt =====
-- What book/BookSide.h uses of `std::map<Price, PriceLevel>`: an ascending list of entries.
use low_latency_trading.Base.{
  ℕ, ◌≤◌, ◌<◌, ◌≡◌, refl, Option, none, some, List, [], ◌∷◌, arith, ltb, ◌==◌, if◌then◌else◌,
}
use low_latency_trading.Book.Level.{PriceLevel, fresh_level}

abbrev pub Levels : Type 0
Levels = List (ℕ × PriceLevel)

-- `levels_.find(price)`.
unfoldable pub find_level : ℕ → Levels → Option PriceLevel
find_level p [] = none
find_level p ((k, l) ∷ ls) = if k == p then some l else find_level p ls

-- `levels_.try_emplace(price, PriceLevel{.price = price})`: an entry that is there stays.
unfoldable pub try_emplace : ℕ → Levels → Levels
try_emplace p [] = (p, fresh_level p) ∷ []
try_emplace p ((k, l) ∷ ls) =
    if k == p
    then (k, l) ∷ ls
    else if ltb p k
    then (p, fresh_level p) ∷ (k, l) ∷ ls
    else (k, l) ∷ try_emplace p ls

-- Writing through the iterator of the entry at `p`.
unfoldable pub assign : ℕ → PriceLevel → Levels → Levels
assign p v [] = []
assign p v ((k, l) ∷ ls) = if k == p then (k, v) ∷ ls else (k, l) ∷ assign p v ls

-- `levels_.erase(iterator)` of the entry at `p`.
unfoldable pub erase : ℕ → Levels → Levels
erase p [] = []
erase p ((k, l) ∷ ls) = if k == p then ls else (k, l) ∷ erase p ls

-- `levels_.begin()->second` and `levels_.rbegin()->second`.
unfoldable pub first_level : Levels → Option PriceLevel
first_level [] = none
first_level ((k, l) ∷ ls) = some l

unfoldable pub last_from : PriceLevel → Levels → PriceLevel
last_from l [] = l
last_from l ((k, m) ∷ ls) = last_from m ls

unfoldable pub last_level : Levels → Option PriceLevel
unfolding last_from
last_level [] = none
last_level ((k, l) ∷ ls) = some (last_from l ls)

-- The keys ascend, and are above the bound.
abbrev pub Above : ℕ → Levels → Type 0
Above b [] = Unit {0}
Above b ((k, l) ∷ ls) = (b < k) × Above k ls

abbrev pub Ascending : Levels → Type 0
Ascending [] = Unit {0}
Ascending ((k, l) ∷ ls) = Above k ls

pub Above-mono : {a b : ℕ} (ls : Levels) → a ≤ b → Above b ls → Above a ls
Above-mono [] h v = tt
Above-mono ((k, l) ∷ ls) h v = (omega arith, v.1)

pub Above-Ascending : (b : ℕ) (ls : Levels) → Above b ls → Ascending ls
Above-Ascending b [] v = tt
Above-Ascending b ((k, l) ∷ ls) v = v.1

pub find_level-Above : (b j : ℕ) (ls : Levels) → Above b ls → j ≤ b → find_level j ls ≡ none
unfolding find_level
find_level-Above b j [] v h = refl
find_level-Above b j ((k, l) ∷ ls) v h = ground (arith, find_level-Above k j ls v.1)

pub find_level-assign :
    (p j : ℕ) (old v : PriceLevel) (ls : Levels)
    → find_level p ls ≡ some old
    → find_level j (assign p v ls) ≡ (if p == j then some v else find_level j ls)
unfolding find_level assign
find_level-assign p j old v [] h = ground arith
find_level-assign p j old v ((k, l) ∷ ls) h = ground (arith, find_level-assign p j old v ls)

-- The entry that `try_emplace` leaves at its key.
abbrev pub level_or_fresh : ℕ → Option PriceLevel → PriceLevel
level_or_fresh p none = fresh_level p
level_or_fresh p (some l) = l

pub find_level-try_emplace :
    (p j : ℕ) (ls : Levels)
    → Ascending ls
    → find_level j (try_emplace p ls)
      ≡ (if p == j then some (level_or_fresh p (find_level p ls)) else find_level j ls)
unfolding find_level try_emplace
find_level-try_emplace p j [] v = ground arith
find_level-try_emplace p j ((k, l) ∷ ls) v =
    ground
      (arith, find_level-try_emplace p j ls (Above-Ascending k ls v), find_level-Above k p ls v)

pub find_level-erase :
    (p j : ℕ) (ls : Levels)
    → Ascending ls
    → find_level j (erase p ls) ≡ (if p == j then none else find_level j ls)
unfolding find_level erase
find_level-erase p j [] v = ground arith
find_level-erase p j ((k, l) ∷ ls) v =
    ground (arith, find_level-erase p j ls (Above-Ascending k ls v), find_level-Above k j ls v)

assign-Above : (b p : ℕ) (v : PriceLevel) (ls : Levels) → Above b ls → Above b (assign p v ls)
unfolding assign
assign-Above b p v [] a = tt
assign-Above b p v ((k, l) ∷ ls) a = ground (arith, assign-Above k p v ls a.1)

pub assign-Ascending :
    (p : ℕ) (v : PriceLevel) (ls : Levels) → Ascending ls → Ascending (assign p v ls)
unfolding assign
assign-Ascending p v [] a = tt
assign-Ascending p v ((k, l) ∷ ls) a = ground (arith, assign-Above k p v ls a)

try_emplace-Above : (b p : ℕ) (ls : Levels) → b < p → Above b ls → Above b (try_emplace p ls)
unfolding try_emplace
try_emplace-Above b p [] h a = (h, tt)
try_emplace-Above b p ((k, l) ∷ ls) h a = ground (arith, try_emplace-Above k p ls)

pub try_emplace-Ascending : (p : ℕ) (ls : Levels) → Ascending ls → Ascending (try_emplace p ls)
unfolding try_emplace
try_emplace-Ascending p [] a = tt
try_emplace-Ascending p ((k, l) ∷ ls) a = ground (arith, try_emplace-Above k p ls)

erase-Above : (b p : ℕ) (ls : Levels) → Above b ls → Above b (erase p ls)
unfolding erase
erase-Above b p [] a = tt
erase-Above b p ((k, l) ∷ ls) a =
    ground (arith, erase-Above k p ls a.1, Above-mono {a = b} {b = k} ls)

pub erase-Ascending : (p : ℕ) (ls : Levels) → Ascending ls → Ascending (erase p ls)
unfolding erase
erase-Ascending p [] a = tt
erase-Ascending p ((k, l) ∷ ls) a = ground (arith, erase-Above k p ls a, Above-Ascending k ls a)
