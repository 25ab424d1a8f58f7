-- ===== src/Logging/Recent.antt =====
-- The class `RecentLogBuffer` of src/utils/logging.py, over any type of log records.
use property_management_lead.Common.{
  ℕ, zero, suc, ◌-◌, ◌+◌, ◌≤◌, ◌≡◌, refl, ap, ◌∙◌, List, [], ◌∷◌, ◌++◌, map, length, drop, ltb,
  Text, if◌then◌else◌, length-append, length-drop_add, sym, Bool-cases, inl, inr, arith,
}

pub record RecentLogBuffer (Record : Type 0) : Type 0 where
  pub capacity : ℕ
  pub buffer : List Record

-- What the program does with a buffer.
pub data Call (Record : Type 0) : Type 0 where
  emitted : Record → Call Record
  cleared : Call Record

le→sub : (m n : ℕ) → m ≤ n → m - n ≡ 0
le→sub m n h = omega arith

module _ {Record : Type 0} where
  unfoldable pub new : ℕ → RecentLogBuffer Record
  new capacity = record { capacity = capacity; buffer = [] }

  unfoldable pub emit : Record → RecentLogBuffer Record → RecentLogBuffer Record
  emit entry self =
      let buffer = self.buffer ++ entry ∷ [] in
      record {
        capacity = self.capacity;
        buffer = if ltb self.capacity (length buffer) then drop 1 buffer else buffer;
      }

  unfoldable pub clear : RecentLogBuffer Record → RecentLogBuffer Record
  clear self = record { capacity = self.capacity; buffer = [] }

  unfoldable pub get_recent : (Record → Text) → RecentLogBuffer Record → List Text
  get_recent format self = map format self.buffer

  unfoldable pub call : Call Record → RecentLogBuffer Record → RecentLogBuffer Record
  unfolding emit clear
  call (emitted entry) self = emit entry self
  call cleared self = clear self

  unfoldable pub run : List (Call Record) → RecentLogBuffer Record → RecentLogBuffer Record
  unfolding call
  run [] self = self
  run (c ∷ calls) self = run calls (call c self)

  -- The abstract log: all that was emitted since the last clearing.
  unfoldable pub logged : List Record → List (Call Record) → List Record
  logged log [] = log
  logged log (emitted entry ∷ calls) = logged (log ++ entry ∷ []) calls
  logged log (cleared ∷ calls) = logged [] calls

  -- The last `n` elements.
  unfoldable pub last : ℕ → List Record → List Record
  last n log = drop (length log - n) log

  -- The view of a buffer of this capacity on a log.
  view : ℕ → List Record → RecentLogBuffer Record
  unfolding last
  view capacity log = record { capacity = capacity; buffer = last capacity log }

  drop-append : (n : ℕ) (xs ys : List Record) → n ≤ length xs → drop n (xs ++ ys) ≡ drop n xs ++ ys
  drop-append zero xs ys h = refl
  drop-append (suc n) [] ys h = absurd (omega arith)
  drop-append (suc n) (x ∷ xs) ys h = drop-append n xs ys (omega arith)

  drop-drop : (n : ℕ) (xs : List Record) → drop 1 (drop n xs) ≡ drop (suc n) xs
  drop-drop zero xs = refl
  drop-drop (suc n) [] = refl
  drop-drop (suc n) (x ∷ xs) = drop-drop n xs

  new-view : (capacity : ℕ) → new capacity ≡ view capacity []
  unfolding new view last
  new-view capacity = rw (le→sub 0 capacity (omega arith)) refl

  clear-view : (capacity : ℕ) (log : List Record) → clear (view capacity log) ≡ view capacity []
  unfolding clear view last
  clear-view capacity log = rw (le→sub 0 capacity (omega arith)) refl

  -- How many of the log's elements are not in the view.
  abbrev dropped : ℕ → List Record → ℕ
  dropped capacity log = length log - capacity

  last-append :
      (capacity : ℕ) (log : List Record) (entry : Record)
      → last capacity log ++ entry ∷ [] ≡ drop (dropped capacity log) (log ++ entry ∷ [])
  unfolding last
  last-append capacity log entry =
      sym (drop-append (dropped capacity log) log (entry ∷ []) (omega arith))

  length-last_append :
      (capacity : ℕ) (log : List Record) (entry : Record)
      → length (last capacity log ++ entry ∷ []) + dropped capacity log ≡ suc (length log)
  unfolding last
  length-last_append capacity log entry = omega (
    arith,
    length-append (last capacity log) (entry ∷ []),
    length-drop_add (dropped capacity log) log (omega arith),
  )

  -- What `emit` keeps of the list with the new element.
  abbrev kept : ℕ → List Record → List Record
  kept capacity buffer = if ltb capacity (length buffer) then drop 1 buffer else buffer

  kept-last :
      (capacity : ℕ) (log : List Record) (entry : Record)
      → kept capacity (last capacity log ++ entry ∷ []) ≡ last capacity (log ++ entry ∷ [])
  unfolding last
  kept-last capacity log entry =
      let size = length-last_append capacity log entry in
      let longer = length-append log (entry ∷ []) in
      let added = last-append capacity log entry in
      elim (Bool-cases (ltb capacity (length (last capacity log ++ entry ∷ [])))) [
        | inl over ↦
            let next : suc (dropped capacity log) ≡ dropped capacity (log ++ entry ∷ []) =
              ground (arith, size, longer) in
            rw over (
              ap (drop 1) added
              ∙ drop-drop (dropped capacity log) (log ++ entry ∷ [])
              ∙ ap (λ n. drop n (log ++ entry ∷ [])) next)
        | inr fits ↦
            let same : dropped capacity log ≡ dropped capacity (log ++ entry ∷ []) =
              ground (arith, size, longer) in
            rw fits (added ∙ ap (λ n. drop n (log ++ entry ∷ [])) same)
      ]

  -- Emitting into a view gives the view of the longer log.
  emit-view :
      (capacity : ℕ) (log : List Record) (entry : Record)
      → emit entry (view capacity log) ≡ view capacity (log ++ entry ∷ [])
  unfolding emit view
  emit-view capacity log entry =
      ap (λ (b : List Record). record { capacity = capacity; buffer = b })
        (kept-last capacity log entry)

  run-view :
      (capacity : ℕ) (log : List Record) (calls : List (Call Record))
      → run calls (view capacity log) ≡ view capacity (logged log calls)
  unfolding run call logged
  run-view capacity log [] = refl
  run-view capacity log (emitted entry ∷ calls) =
      ap (run calls) (emit-view capacity log entry) ∙ run-view capacity (log ++ entry ∷ []) calls
  run-view capacity log (cleared ∷ calls) =
      ap (run calls) (clear-view capacity log) ∙ run-view capacity [] calls

  -- Whatever is emitted and cleared on a new buffer, and however it is formatted, the recent
  -- messages are those of the last `capacity` records that were emitted since the last clearing, in
  -- order.
  pub get_recent-run :
      (capacity : ℕ) (calls : List (Call Record)) (format : Record → Text)
      → get_recent format (run calls (new capacity)) ≡ map format (last capacity (logged [] calls))
  unfolding get_recent view
  get_recent-run capacity calls format =
      ap (λ (b : RecentLogBuffer Record). map format b.buffer)
        (ap (run calls) (new-view capacity) ∙ run-view capacity [] calls)
