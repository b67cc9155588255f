-- ===== src/Console/Provider/Trace.antt =====
-- What the pulse shows of the pages of jobs that the console fetches.
use job_scheduler.Prelude.{
  ℕ, zero, suc, ◌+◌, ◌-◌, ◌≤◌, ◌≡◌, refl, Bool, true, false, List, [], ◌∷◌, ◌++◌, ltb, length, drop,
  count, length-drop, length-append, ap, sym, ◌∙◌, subst, arith, Bool-cases, inl, inr, count-append,
  str_eq,
}
use job_scheduler.Console.Data.{Job}
use job_scheduler.Console.Provider.{
  PulseEventType, completed, failed, PulseEvent, Seen, Provider, counted, burst, rise, fresh,
  last_fifty, appended, observe,
}

abbrev pub is_of : PulseEventType → PulseEvent → Bool
is_of completed e = elim e.type [ completed ↦ true | failed ↦ false ]
is_of failed e = elim e.type [ completed ↦ false | failed ↦ true ]

count-burst : (t : PulseEventType) (at n : ℕ) → count (is_of t) (burst t at n) ≡ n
unfolding burst
count-burst t at zero = refl
count-burst completed at (suc n) = omega (arith, count-burst completed (suc at) n)
count-burst failed at (suc n) = omega (arith, count-burst failed (suc at) n)

count-burst-other :
    (at n : ℕ)
    → (count (is_of completed) (burst failed at n) ≡ 0)
      × (count (is_of failed) (burst completed at n) ≡ 0)
unfolding burst
count-burst-other at zero = (refl, refl)
count-burst-other at (suc n) =
    let (a, b) = count-burst-other (suc at) n in (omega (arith, a), omega (arith, b))

count-rise :
    (t : PulseEventType) (now n before : ℕ) → count (is_of t) (rise t now n before) ≡ n - before
count-rise t now n before = elim (Bool-cases (ltb before n)) [
  | inl e ↦ rw e (count-burst t now (n - before))
  | inr e ↦ rw e (ground arith)
]

count-rise-other :
    (now n before : ℕ)
    → (count (is_of completed) (rise failed now n before) ≡ 0)
      × (count (is_of failed) (rise completed now n before) ≡ 0)
count-rise-other now n before = elim (Bool-cases (ltb before n)) [
  | inl e ↦ rw e (count-burst-other now (n - before))
  | inr e ↦ rw e (refl, refl)
]

count-fresh :
    (now : ℕ) (prev next : Seen)
    → (count (is_of completed) (fresh now prev next) ≡ next.completed_count - prev.completed_count)
      × (count (is_of failed) (fresh now prev next)
          ≡ (next.failed_count + next.dead_count) - (prev.failed_count + prev.dead_count))
unfolding fresh
count-fresh now prev next =
    let c = next.completed_count in
    let d = prev.completed_count in
    let f = next.failed_count + next.dead_count in
    let g = prev.failed_count + prev.dead_count in
    (
      omega (
        arith,
        count-append (is_of completed) (rise completed now c d) (rise failed now f g),
        count-rise completed now c d,
        (count-rise-other now f g).0,
      ),
      omega (
        arith,
        count-append (is_of failed) (rise completed now c d) (rise failed now f g),
        count-rise failed now f g,
        (count-rise-other now c d).1,
      ),
    )

-- The pages of jobs that the console fetches, each with the time of its arrival.
abbrev pub Pages : Type 0
Pages = List (ℕ × List Job)

abbrev pub observed : Pages → Provider → Provider
observed [] p = p
observed ((now, items) ∷ pages) p = observed pages (observe now items p)

-- All events that the pages give, each page against the one before it.
abbrev pub log : Seen → Pages → List PulseEvent
log before [] = []
log before ((now, items) ∷ pages) = fresh now before (counted items) ++ log (counted items) pages

-- By how much a figure of a page rises above that of the page before, over all pages.
abbrev pub rises : (List Job → ℕ) → ℕ → Pages → ℕ
rises f before [] = 0
rises f before ((now, items) ∷ pages) = (f items - before) + rises f (f items) pages

abbrev pub completed_in : List Job → ℕ
completed_in items = count (λ j. str_eq j.status "completed") items

abbrev pub failed_in : List Job → ℕ
failed_in items =
    count (λ j. str_eq j.status "failed") items + count (λ j. str_eq j.status "dead_letter") items

-- The last fifty events.
abbrev pub latest : List PulseEvent → List PulseEvent
latest es = drop (length es - 50) es

append-[] : (es : List PulseEvent) → es ++ [] ≡ es
append-[] [] = refl
append-[] (e ∷ es) = ap (λ t. e ∷ t) (append-[] es)

append_assoc : (xs ys zs : List PulseEvent) → (xs ++ ys) ++ zs ≡ xs ++ (ys ++ zs)
append_assoc [] ys zs = refl
append_assoc (x ∷ xs) ys zs = ap (λ t. x ∷ t) (append_assoc xs ys zs)

drop-append :
    (k : ℕ) (xs ys : List PulseEvent) → k ≤ length xs → drop k xs ++ ys ≡ drop k (xs ++ ys)
drop-append zero xs ys h = refl
drop-append (suc k) [] ys h = absurd (omega (arith, h))
drop-append (suc k) (x ∷ xs) ys h = drop-append k xs ys (omega (arith, h))

drop-[] : (n : ℕ) → drop {A = PulseEvent} n [] ≡ []
drop-[] zero = refl
drop-[] (suc n) = refl

drop-drop : (m k n : ℕ) (es : List PulseEvent) → n ≡ k + m → drop m (drop k es) ≡ drop n es
drop-drop m zero n es e = ap (λ i. drop i es) (omega (arith, e))
drop-drop m (suc k) n [] e = drop-[] m ∙ sym (drop-[] n)
drop-drop m (suc k) zero (x ∷ es) e = absurd (omega (arith, e))
drop-drop m (suc k) (suc n) (x ∷ es) e = drop-drop m k n es (omega (arith, e))

latest-short : (es : List PulseEvent) → length es ≤ 50 → latest es ≡ es
latest-short es h =
    let none_cut : length es - 50 ≡ 0 = omega (arith, h) in ap (λ k. drop k es) none_cut

-- What is cut off early is cut off at the end too.
latest-append : (xs ys : List PulseEvent) → latest (latest xs ++ ys) ≡ latest (xs ++ ys)
latest-append xs ys =
    let k = length xs - 50 in
    let both = length-append xs ys in
    let left = length-drop k (xs ++ ys) in
    ap latest (drop-append k xs ys (omega arith))
    ∙ drop-drop (length (drop k (xs ++ ys)) - 50) k (length (xs ++ ys) - 50) (xs ++ ys)
        (omega (arith, both, left))

length-latest : (es : List PulseEvent) → length (latest es) ≤ 50
length-latest es = omega (arith, length-drop (length es - 50) es)

appended-latest :
    (old new : List PulseEvent) → length old ≤ 50 → appended old new ≡ latest (old ++ new)
unfolding last_fifty
appended-latest old [] h = sym (ap latest (append-[] old) ∙ latest-short old h)
appended-latest old (e ∷ new) h = refl

observe-latest :
    (now : ℕ) (items : List Job) (p : Provider)
    → length p.pulse_events ≤ 50
    → (observe now items p).pulse_events
      ≡ latest (p.pulse_events ++ fresh now p.seen (counted items))
unfolding observe
observe-latest now items p h = appended-latest p.pulse_events (fresh now p.seen (counted items)) h

observe-seen :
    (now : ℕ) (items : List Job) (p : Provider) → (observe now items p).seen ≡ counted items
unfolding observe
observe-seen now items p = refl

observed-latest :
    (pages : Pages) (p : Provider)
    → length p.pulse_events ≤ 50
    → (observed pages p).pulse_events ≡ latest (p.pulse_events ++ log p.seen pages)
observed-latest [] p h = sym (ap latest (append-[] p.pulse_events) ∙ latest-short p.pulse_events h)
observed-latest ((now, items) ∷ pages) p h =
    let new = fresh now p.seen (counted items) in
    let rest = log (counted items) pages in
    let pulse = observe-latest now items p h in
    observed-latest pages (observe now items p)
      (subst (λ es. length es ≤ 50) (sym pulse) (length-latest (p.pulse_events ++ new)))
    ∙ ap (λ s. latest ((observe now items p).pulse_events ++ log s pages))
        (observe-seen now items p)
    ∙ ap (λ es. latest (es ++ rest)) pulse
    ∙ latest-append (p.pulse_events ++ new) rest
    ∙ ap latest (append_assoc p.pulse_events new rest)

count-log :
    (before : Seen) (pages : Pages)
    → (count (is_of completed) (log before pages) ≡ rises completed_in before.completed_count pages)
      × (count (is_of failed) (log before pages)
          ≡ rises failed_in (before.failed_count + before.dead_count) pages)
unfolding counted
count-log before [] = (refl, refl)
count-log before ((now, items) ∷ pages) =
    let (a, b) = count-fresh now before (counted items) in
    let (c, d) = count-log (counted items) pages in
    let new = fresh now before (counted items) in
    let rest = log (counted items) pages in
    let good = count-append (is_of completed) new rest in
    let bad = count-append (is_of failed) new rest in
    (omega (arith, a, c, good), omega (arith, b, d, bad))

-- From a pulse of at most fifty events, after any sequence of pages of jobs, the pulse shows the last
-- fifty of the events that it had and of those that the pages give, each page against the one before
-- it; and those are as many completed events as the number of completed jobs rises from page to page,
-- and as many failed events as the number of failed and dead jobs together does.
pub observed_pulse :
    (pages : Pages) (p : Provider)
    → length p.pulse_events ≤ 50
    → let all = p.pulse_events ++ log p.seen pages in
      ((observed pages p).pulse_events ≡ drop (length all - 50) all)
      × (length (observed pages p).pulse_events ≤ 50)
      × (count (is_of completed) (log p.seen pages)
          ≡ rises completed_in p.seen.completed_count pages)
      × (count (is_of failed) (log p.seen pages)
          ≡ rises failed_in (p.seen.failed_count + p.seen.dead_count) pages)
observed_pulse pages p h =
    let shown = observed-latest pages p h in
    let (good, bad) = count-log p.seen pages in
    (
      shown,
      subst (λ es. length es ≤ 50) (sym shown) (length-latest (p.pulse_events ++ log p.seen pages)),
      good,
      bad,
    )
