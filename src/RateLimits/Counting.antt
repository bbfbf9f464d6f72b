-- ===== src/RateLimits/Counting.antt =====
-- How the hits of one window add up, whatever other callers do meanwhile.
use memoar.Prelude.{
  ℕ, ◌+◌, ◌*◌, ◌<◌, ◌≡◌, refl, ap, ◌∙◌, arith, inl, inr, false, List, [], ◌∷◌, none, some,
}
use memoar.Prelude.Tests.{if◌then◌else◌, Bool-cases, Option-cases, leb, leb→le, ltb}
use memoar.Prelude.Lists.{All, length}
use memoar.Prelude.Str.{Str, ◌==◌, eq_iff}
use memoar.Prelude.JsMap.{
  get, get-delete_where, get-set, IsMap, IsMap-delete_where, IsMap-set, JsMap, set, spared,
}
use memoar.RateLimits.{
  budget_for, can_activate, flood_key, hit, is_expired, open_window, ordinary, Platform, Request,
  Window,
}

is_live : (now : ℕ) (w : Window) → now < w.expires_at → is_expired now w ≡ false
unfolding is_expired
is_live now w h = elim (Bool-cases (leb w.expires_at now)) [
  | inl t ↦ absurd (omega (arith, leb→le w.expires_at now t))
  | inr f ↦ f
]

-- Opening a window for one key leaves a live window of another as it is.
get-open_window :
    (key other : Str) (seconds now : ℕ) (windows : JsMap Window) (w : Window)
    → IsMap windows
    → get key windows ≡ some w
    → now < w.expires_at
    → (other == key) ≡ false
    → get key (open_window other seconds now windows) ≡ some w
unfolding open_window
get-open_window key other seconds now windows w map e live ne =
    let opened = set other (record { count = 1; expires_at = now + seconds * 1000 }) windows in
    let there : get key opened ≡ some w = get-set other key _ windows ∙ rw (ne, e) refl in
    let swept =
      get-delete_where (λ candidate window. is_expired now window) key opened
        (IsMap-set other _ windows map) in
    elim (Bool-cases (ltb 10000 (length opened))) [
      | inl t ↦
          rw (open_window, t)
            (swept ∙ (ap (spared (is_expired now)) there ∙ rw (is_live now w live) refl))
      | inr f ↦ rw (open_window, f) there
    ]

get-hit :
    (key other : Str) (seconds now : ℕ) (windows : JsMap Window) (w : Window)
    → IsMap windows
    → get key windows ≡ some w
    → now < w.expires_at
    → get key (hit other seconds now windows).0
      ≡ some (record w { count = if other == key then w.count + 1 else w.count })
unfolding hit
get-hit key other seconds now windows w map e live = elim (Bool-cases (other == key)) [
  | inl q ↦
      let here : get other windows ≡ some w =
        ap (λ (k : Str). get k windows) ((eq_iff other key).0 q) ∙ e in
      rw (hit, here, is_live now w live, q) (get-set other key _ windows ∙ rw q refl)
  | inr q ↦ elim (Option-cases (get other windows)) [
    | inl n ↦ rw (hit, n, q) (get-open_window key other seconds now windows w map e live q)
    | inr (v, there) ↦ elim (Bool-cases (is_expired now v)) [
      | inl x ↦ rw (hit, there, x, q) (get-open_window key other seconds now windows w map e live q)
      | inr x ↦ rw (hit, there, x, q) (get-set other key _ windows ∙ rw (q, e) refl)
    ]
  ]
]

IsMap-open_window :
    (key : Str) (seconds now : ℕ) (windows : JsMap Window)
    → IsMap windows
    → IsMap (open_window key seconds now windows)
unfolding open_window
IsMap-open_window key seconds now windows map =
    let opened = set key (record { count = 1; expires_at = now + seconds * 1000 }) windows in
    let whole : IsMap opened = IsMap-set key _ windows map in
    elim (Bool-cases (ltb 10000 (length opened))) [
      | inl t ↦ rw (open_window, t) (IsMap-delete_where (λ c w. is_expired now w) opened whole)
      | inr f ↦ rw (open_window, f) whole
    ]

IsMap-hit :
    (key : Str) (seconds now : ℕ) (windows : JsMap Window)
    → IsMap windows
    → IsMap (hit key seconds now windows).0
unfolding hit
IsMap-hit key seconds now windows map = elim (Option-cases (get key windows)) [
  | inl n ↦ rw (hit, n) (IsMap-open_window key seconds now windows map)
  | inr (v, there) ↦ elim (Bool-cases (is_expired now v)) [
    | inl x ↦ rw (hit, there, x) (IsMap-open_window key seconds now windows map)
    | inr x ↦ rw (hit, there, x) (IsMap-set key _ windows map)
  ]
]

pub record Hit : Type 0 where
  pub key : Str
  pub seconds : ℕ
  pub now : ℕ

pub run : List Hit → JsMap Window → JsMap Window
run [] windows = windows
run (h ∷ hits) windows = run hits (hit h.key h.seconds h.now windows).0

pub hits_of : Str → List Hit → ℕ
hits_of key [] = 0
hits_of key (h ∷ hits) = if h.key == key then hits_of key hits + 1 else hits_of key hits

-- While a window lasts its count rises by one for each hit of its own key and by nothing else, and
-- its end never moves, however many hits of other keys come between and whatever is swept.
pub get-run :
    (key : Str) (hits : List Hit) (windows : JsMap Window) (w : Window)
    → IsMap windows
    → get key windows ≡ some w
    → All (λ (h : Hit). h.now < w.expires_at) hits
    → get key (run hits windows) ≡ some (record w { count = w.count + hits_of key hits })
unfolding run hits_of
get-run key [] windows w map e live =
    e ∙ ap (λ (n : ℕ). some (record w { count = n })) (omega arith)
get-run key (h ∷ hits) windows w map e live =
    let next : Window = record w { count = if h.key == key then w.count + 1 else w.count } in
    get-run key hits (hit h.key h.seconds h.now windows).0 next
      (IsMap-hit h.key h.seconds h.now windows map)
      (get-hit key h.key h.seconds h.now windows w map e live.0) live.1
    ∙ ap (λ (n : ℕ). some (record w { count = n })) (ground arith)

count-hit :
    (key : Str) (seconds now : ℕ) (windows : JsMap Window) (w : Window)
    → get key windows ≡ some w
    → now < w.expires_at
    → (hit key seconds now windows).1 ≡ w.count + 1
unfolding hit
count-hit key seconds now windows w e live = rw (hit, e, is_live now w live) refl

verdict-ordinary :
    (platform : Platform) (request : Request) (now : ℕ) (windows : JsMap Window)
    → (can_activate platform ordinary request now windows).1.retry_after ≡ (
        if ltb
          (budget_for platform ordinary).limit
          (hit (flood_key request) (budget_for platform ordinary).window_seconds now windows).1
        then some (budget_for platform ordinary).window_seconds
        else none)
unfolding can_activate
verdict-ordinary platform request now windows = ground arith

-- In a window that a caller opened on a route, the guard lets an ordinary request through exactly
-- while the window's hits, this one included, are within the limit; a refusal names the window's
-- length. What other callers and other routes do in between makes no difference.
pub can_activate-run :
    (platform : Platform) (request : Request) (hits : List Hit) (windows : JsMap Window)
    (w : Window) (now : ℕ)
    → IsMap windows
    → get (flood_key request) windows ≡ some w
    → All (λ (h : Hit). h.now < w.expires_at) hits
    → now < w.expires_at
    → (can_activate platform ordinary request now (run hits windows)).1.retry_after ≡ (
        if ltb (budget_for platform ordinary).limit (w.count + hits_of (flood_key request) hits + 1)
        then some (budget_for platform ordinary).window_seconds
        else none)
can_activate-run platform request hits windows w now map e live at =
    let flood = budget_for platform ordinary in
    let key = flood_key request in
    let counted =
      count-hit key flood.window_seconds now (run hits windows)
        (record w { count = w.count + hits_of key hits }) (get-run key hits windows w map e live)
        at in
    verdict-ordinary platform request now (run hits windows)
    ∙ ap (λ (n : ℕ). if ltb flood.limit n then some flood.window_seconds else none) counted
