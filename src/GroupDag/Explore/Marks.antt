-- ===== src/GroupDag/Explore/Marks.antt =====
-- The inner loops of the searches of core/group_dag.cpp.
use pto_fusebox.Base.{
  ℕ, zero, suc, ◌+◌, ◌≤◌, ◌<◌, ◌≡◌, refl, ◌∙◌, inl, inr, Bool, true, false, not, ◌&&◌, ◌||◌, none,
  some, List, [], ◌∷◌, ◌++◌, arith, ltb, ◌==◌, if◌then◌else◌, Bool-cases, eq_or_ne, lt→ltb, ==_refl,
  length, length-append, elem, elem-append, Table, put,
}
use pto_fusebox.GroupDag.Explore.{Event, Search, mark, scan}

-- The groups that the events visit, and whether an event ends the search.
abbrev pub visits : List Event → List ℕ
visits [] = []
visits (Event.found ∷ events) = visits events
visits (Event.visit g ∷ events) = g ∷ visits events

abbrev pub finds : List Event → Bool
finds [] = false
finds (Event.found ∷ events) = true
finds (Event.visit g ∷ events) = finds events

-- The state after the events, if none of them ends the search.
abbrev pub marked : List Event → Search → Search
marked [] s = s
marked (Event.found ∷ events) s = s
marked (Event.visit g ∷ events) s = marked events (mark g s)

pub scan-found : (events : List Event) (s : Search) → finds events ≡ true → scan events s ≡ none
unfolding scan
scan-found [] s h = cc
scan-found (Event.found ∷ events) s h = refl
scan-found (Event.visit g ∷ events) s h = scan-found events (mark g s) h

pub scan-marked :
    (events : List Event) (s : Search)
    → finds events ≡ false
    → scan events s ≡ some (marked events s)
unfolding scan
scan-marked [] s h = refl
scan-marked (Event.found ∷ events) s h = cc
scan-marked (Event.visit g ∷ events) s h = scan-marked events (mark g s) h

visited-mark : (g : ℕ) (s : Search) (x : ℕ) → (mark g s).visited x ≡ (s.visited x || x == g)
unfolding mark
visited-mark g s x = elim (Bool-cases (s.visited g)) [
  | inl e ↦ elim (eq_or_ne x g) [
    | inl same ↦ rw same (ground (arith, e))
    | inr ne ↦ ground (arith, e)
  ]
  | inr e ↦ rw (e, mark) (ground arith)
]

queue-mark :
    (g : ℕ) (s : Search) (x : ℕ)
    → elem (mark g s).queue x ≡ (elem s.queue x || x == g && not (s.visited x))
unfolding mark
queue-mark g s x = elim (eq_or_ne x g) [
  | inl same ↦ rw same (ground (arith, elem-append s.queue (g ∷ []) g))
  | inr ne ↦ ground (arith, elem-append s.queue (g ∷ []) x)
]

pub visited-marked :
    (events : List Event) (s : Search) (x : ℕ)
    → finds events ≡ false
    → (marked events s).visited x ≡ (s.visited x || elem (visits events) x)
visited-marked [] s x h = ground arith
visited-marked (Event.found ∷ events) s x h = cc
visited-marked (Event.visit g ∷ events) s x h =
    ground (arith, visited-marked events (mark g s) x h, visited-mark g s x)

pub queue-marked :
    (events : List Event) (s : Search) (x : ℕ)
    → finds events ≡ false
    → elem (marked events s).queue x
      ≡ (elem s.queue x || (elem (visits events) x && not (s.visited x)))
queue-marked [] s x h = ground arith
queue-marked (Event.found ∷ events) s x h = cc
queue-marked (Event.visit g ∷ events) s x h =
    ground (arith, queue-marked events (mark g s) x h, queue-mark g s x, visited-mark g s x)

-- How many groups below `n` are not visited.
abbrev pub unvisited : ℕ → Table Bool → ℕ
unvisited zero visited = 0
unvisited (suc n) visited = (if visited n then 0 else 1) + unvisited n visited

unvisited-below :
    (n : ℕ) (visited : Table Bool) (g : ℕ)
    → n ≤ g
    → unvisited n (put visited g true) ≡ unvisited n visited
unvisited-below zero visited g h = refl
unvisited-below (suc n) visited g h = ground (arith, unvisited-below n visited g)

pub unvisited-put :
    (n : ℕ) (visited : Table Bool) (g : ℕ)
    → visited g ≡ false
    → unvisited n (put visited g true) + (if ltb g n then 1 else 0) ≡ unvisited n visited
unvisited-put zero visited g h = ground arith
unvisited-put (suc n) visited g h = elim (eq_or_ne g n) [
  | inl e ↦ rw (unvisited-below n visited g (omega arith), e) (ground (arith, rw e at h))
  | inr ne ↦ ground (arith, unvisited-put n visited g h)
]

unvisited-mark :
    (n g : ℕ) (s : Search)
    → g < n
    → unvisited n (mark g s).visited + length (mark g s).queue
      ≡ unvisited n s.visited + length s.queue
unfolding mark
unvisited-mark n g s h = elim (Bool-cases (s.visited g)) [
  | inl e ↦ rw (e, mark) refl
  | inr e ↦
      rw (e, mark)
        (ground
          (arith, unvisited-put n s.visited g e, length-append s.queue (g ∷ []), lt→ltb g n h))
]

-- A mark takes a group from the unvisited ones to the queue.
pub unvisited-marked :
    (n : ℕ) (events : List Event) (s : Search)
    → ((x : ℕ) → elem (visits events) x ≡ true → x < n)
    → unvisited n (marked events s).visited + length (marked events s).queue
      ≡ unvisited n s.visited + length s.queue
unvisited-marked n [] s h = refl
unvisited-marked n (Event.found ∷ events) s h = refl
unvisited-marked n (Event.visit g ∷ events) s h =
    unvisited-marked n events (mark g s) (λ x i. h x (ground arith))
    ∙ unvisited-mark n g s (h g (ground (arith, ==_refl g)))

pub finds-append : (es fs : List Event) → finds (es ++ fs) ≡ (finds es || finds fs)
finds-append [] fs = refl
finds-append (Event.found ∷ es) fs = refl
finds-append (Event.visit g ∷ es) fs = finds-append es fs

pub visits-append :
    (es fs : List Event) (x : ℕ)
    → elem (visits (es ++ fs)) x ≡ (elem (visits es) x || elem (visits fs) x)
visits-append [] fs x = refl
visits-append (Event.found ∷ es) fs x = visits-append es fs x
visits-append (Event.visit g ∷ es) fs x = ground (arith, visits-append es fs x)
