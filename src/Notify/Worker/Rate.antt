-- ===== src/Notify/Worker/Rate.antt =====
-- The limit on the rate of alerts.
use congraph_log_watcher.Common.{
  ℕ, ◌+◌, ◌<◌, ◌≤◌, ◌≡◌, refl, sym, ap, ap₂, ltb, ◌∙◌, Bool, true, false, not, ◌&&◌, List, [], ◌∷◌,
  ◌++◌, keep, length, leb, All, Time, before, add, sub, subst, arith, if◌then◌else◌,
}
use congraph_log_watcher.Alert.{Alert}
use congraph_log_watcher.Notify.Worker.{Worker, allow, drop_one, minute}

-- The worker after calls of `allow`, the latest first, each with the reading of the clock
unfoldable pub allow_all : Worker → List (Alert × Time) → Worker
allow_all w [] = w
allow_all w (c ∷ cs) = (allow (allow_all w cs) c.0 c.1).0

-- The readings at which an alert was let through, the latest first
unfoldable pub passed : Worker → List (Alert × Time) → List Time
unfolding allow_all
passed w [] = []
passed w (c ∷ cs) =
    let earlier = passed w cs in
    if (allow (allow_all w cs) c.0 c.1).1 then c.1 ∷ earlier else earlier

-- The clock does not go back.
abbrev pub IsMonotone : List (Alert × Time) → Type 0
IsMonotone [] = Unit
IsMonotone (c ∷ cs) = All (λ d. d.1 ≤ c.1) cs × IsMonotone cs

abbrev pub since : Time → Time → Bool
since cutoff at = not (before at cutoff)

count : Time → List Time → ℕ
count cutoff xs = length (keep (since cutoff) xs)

count-append :
    (c : Time) (xs : List Time) (x : Time)
    → count c (xs ++ x ∷ []) ≡ count c xs + (if since c x then 1 else 0)
unfolding count
count-append c [] x = ground arith
count-append c (y ∷ ys) x = ground (arith, count-append c ys x)

count-keep : (c d : Time) (xs : List Time) → d ≤ c → count c (keep (since d) xs) ≡ count c xs
unfolding count
count-keep c d [] h = refl
count-keep c d (x ∷ xs) h = ground (arith, count-keep c d xs h)

-- The readings kept count as those let through, from `c` on.
abbrev Tracks : Time → List Time → List Time → Type 0
Tracks c recent ps = (d : Time) → c ≤ d → count d recent ≡ count d ps

-- What a call does
allow_lem :
    (w : Worker) (a : Alert) (now : Time)
    → let kept = keep (since (sub now minute)) w.recent in
      let (w', yea) = allow w a now in
      (w'.limit ≡ w.limit)
      × (if yea then (w'.recent ≡ kept ++ now ∷ []) × (length kept < w.limit) else w'.recent ≡ kept)
unfolding allow drop_one
allow_lem w a now = ground arith

-- Each was let through when fewer than `n` were, in the minute before it.
abbrev Limited : ℕ → List Time → Type 0
Limited n [] = Unit
Limited n (p ∷ ps) = (count (sub p minute) ps < n) × Limited n ps

step :
    (w w' : Worker) (now : Time) (allowed : Bool) (ps : List Time) (c : Time)
    → c ≤ sub now minute
    → Tracks c w.recent ps
    → (if allowed
        then (w'.recent ≡ keep (since (sub now minute)) w.recent ++ now ∷ [])
          × (length (keep (since (sub now minute)) w.recent) < w.limit)
        else w'.recent ≡ keep (since (sub now minute)) w.recent)
    → Limited w.limit ps
    → Tracks (sub now minute) w'.recent (if allowed then now ∷ ps else ps)
      × Limited w.limit (if allowed then now ∷ ps else ps)
unfolding count
step w w' now true ps c h t e l = (
  λ d k. ground (
    arith,
    t d (omega arith),
    count-append d (keep (since (sub now minute)) w.recent) now,
    count-keep d (sub now minute) w.recent k,
    e.0,
  ),
  (omega (arith, t (sub now minute) h, e.1), l),
)
step w w' now false ps c h t e l =
    (λ d k. ground (arith, t d (omega arith), count-keep d (sub now minute) w.recent k, e), l)

allow_all-Limited :
    (w : Worker) (cs : List (Alert × Time))
    → w.recent ≡ []
    → IsMonotone cs
    → ((now : Time)
        → All (λ d. d.1 ≤ now) cs
        → Tracks (sub now minute) (allow_all w cs).recent (passed w cs))
      × ((allow_all w cs).limit ≡ w.limit)
      × Limited w.limit (passed w cs)
unfolding allow_all passed
allow_all-Limited w [] r m = (λ now h d k. ap (count d) r, refl, tt)
allow_all-Limited w ((a, now) ∷ cs) r m =
    let (tracked, same, limited) = allow_all-Limited w cs r m.1 in
    let (same', after) = allow_lem (allow_all w cs) a now in
    let (tracked', limited') =
      step (allow_all w cs) (allow (allow_all w cs) a now).0 now (allow (allow_all w cs) a now).1
        (passed w cs) (sub now minute) (omega arith) (tracked now m.0) after
        (subst (λ l. Limited l (passed w cs)) (sym same) limited) in
    (
      λ later h d k. tracked' d (omega (arith, h.0)),
      same' ∙ same,
      subst
          (λ l.
            Limited l (if (allow (allow_all w cs) a now).1 then now ∷ passed w cs else passed w cs))
          same limited',
    )

-- The readings from `t` to a minute after it
abbrev pub in_minute : Time → Time → Bool
in_minute t at = leb t at && leb at (add t minute)

in_minute-count :
    (c t : Time) (ps : List Time) → c ≤ t → length (keep (in_minute t) ps) ≤ count c ps
unfolding count
in_minute-count c t [] h = omega arith
in_minute-count c t (p ∷ ps) h = ground (arith, in_minute-count c t ps h)

Limited-in_minute :
    (n : ℕ) (t : Time) (ps : List Time) → Limited n ps → length (keep (in_minute t) ps) ≤ n
Limited-in_minute n t [] l = omega arith
Limited-in_minute n t (p ∷ ps) l =
    ground (arith, in_minute-count (sub p minute) t ps, Limited-in_minute n t ps l.1)

-- For a worker with nothing let through yet, if its clock does not go back: in no minute,
-- ends included, are more let through than the limit.
pub passed_rate :
    (w : Worker) (cs : List (Alert × Time)) (t : Time)
    → w.recent ≡ []
    → IsMonotone cs
    → length (keep (in_minute t) (passed w cs)) ≤ w.limit
passed_rate w cs t r m = Limited-in_minute w.limit t (passed w cs) (allow_all-Limited w cs r m).2

allow_test :
    (w : Worker) (a : Alert) (now : Time)
    → (allow w a now).1 ≡ ltb (count (sub now minute) w.recent) w.limit
unfolding allow count
allow_test w a now = ground arith

-- For a worker with nothing let through yet, if its clock does not go back: an alert is let through
-- exactly when fewer than the limit were let
-- through in the minute before it.
pub allow-passed :
    (w : Worker) (cs : List (Alert × Time)) (a : Alert) (now : Time)
    → w.recent ≡ []
    → IsMonotone ((a, now) ∷ cs)
    → (allow (allow_all w cs) a now).1
      ≡ ltb (length (keep (since (sub now minute)) (passed w cs))) w.limit
unfolding count
allow-passed w cs a now r m =
    let (tracked, same, limited) = allow_all-Limited w cs r m.1 in
    allow_test (allow_all w cs) a now
    ∙ ap₂ ltb (tracked now m.0 (sub now minute) (omega arith)) same
