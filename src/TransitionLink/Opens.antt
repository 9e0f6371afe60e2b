-- ===== src/TransitionLink/Opens.antt =====
-- Where the clicks on links of frontend/src/lib/tansitionLink.tsx lead.
use text.Mathlib.Text.{◌==◌ as str_eq}
use raft_in_motion.Prelude.{
  ℕ, suc, String, ◌+◌, ◌≡◌, refl, ap, sym, ◌∙◌, leb, Bool, true, false, Bool-cases, inl, inr, List,
  [], ◌∷◌, ◌++◌, append_assoc, append-nil, arith, if◌then◌else◌,
}
use raft_in_motion.TransitionLink.{
  Timeout, Browser, init, is_external, handle_click, hrefs, due_by, later_than, fire,
}

-- A click: whether there is a wrapper, the time and the address.
abbrev pub Click : Type 0
Click = Bool × ℕ × String

abbrev pub click_all : List Click → Browser → Browser
unfolding handle_click
click_all [] b = b
click_all ((wrapper, now, href) ∷ rest) b = click_all rest (handle_click wrapper now href b)

-- How often an address stands in a list.
abbrev pub count : String → List String → ℕ
count h [] = 0
count h (x ∷ xs) = let n = count h xs in if str_eq h x then suc n else n

count-append : (h : String) (xs ys : List String) → count h (xs ++ ys) ≡ count h xs + count h ys
count-append h [] ys = omega arith
count-append h (x ∷ xs) ys = ground (arith, count-append h xs ys)

abbrev pub external : List Click → List (String × Bool)
external [] = []
external ((wrapper, now, href) ∷ rest) =
    let later = external rest in if is_external href then (href, true) ∷ later else later

abbrev pub internal : List Click → List String
internal [] = []
internal ((wrapper, now, href) ∷ rest) =
    let later = internal rest in if is_external href then later else href ∷ later

-- All clicks were at least 150 ms before.
abbrev pub all_by : ℕ → List Click → Bool
all_by last [] = true
all_by last ((wrapper, now, href) ∷ rest) =
    let later = all_by last rest in if leb (now + 150) last then later else false

hrefs-append : (xs ys : List Timeout) → hrefs (xs ++ ys) ≡ hrefs xs ++ hrefs ys
hrefs-append [] ys = refl
hrefs-append (x ∷ xs) ys = ap (λ l. x.href ∷ l) (hrefs-append xs ys)

-- What was pushed or waits to be.
abbrev pending : String → Browser → ℕ
pending h b = count h b.pushed + count h (hrefs b.timeouts)

handle_click-pending :
    (wrapper : Bool) (now : ℕ) (href h : String) (b : Browser)
    → pending h (handle_click wrapper now href b)
      ≡ pending h b + (if is_external href then 0 else count h (href ∷ []))
unfolding handle_click
handle_click-pending wrapper now href h b = ground (
  arith,
  count-append h b.pushed (href ∷ []),
  hrefs-append b.timeouts (record { due = now + 150; href = href } ∷ []),
  count-append h (hrefs b.timeouts) (href ∷ []),
)

click_all-pending :
    (clicks : List Click) (h : String) (b : Browser)
    → pending h (click_all clicks b) ≡ pending h b + count h (internal clicks)
unfolding click_all
click_all-pending [] h b = omega arith
click_all-pending ((wrapper, now, href) ∷ rest) h b = ground (
  arith,
  click_all-pending rest h (handle_click wrapper now href b),
  handle_click-pending wrapper now href h b,
)

click_all-defaults :
    (clicks : List Click) (b : Browser)
    → (click_all clicks b).defaults ≡ b.defaults ++ external clicks
unfolding click_all handle_click
click_all-defaults [] b = sym (append-nil b.defaults)
click_all-defaults ((wrapper, now, href) ∷ rest) b = elim (Bool-cases (is_external href)) [
  | inl away ↦
      click_all-defaults rest (handle_click wrapper now href b)
      ∙ ground (arith, away, append_assoc b.defaults ((href, true) ∷ []) (external rest))
  | inr here ↦ click_all-defaults rest (handle_click wrapper now href b) ∙ ground (arith, here)
]

-- Every timeout is due by then.
abbrev all_due : ℕ → List Timeout → Bool
all_due last [] = true
all_due last (t ∷ rest) = let later = all_due last rest in if leb t.due last then later else false

all_due-append :
    (last : ℕ) (xs : List Timeout) (t : Timeout)
    → all_due last xs ≡ true
    → leb t.due last ≡ true
    → all_due last (xs ++ t ∷ []) ≡ true
all_due-append last [] t h k = ground (arith, k)
all_due-append last (x ∷ xs) t h k = ground (arith, all_due-append last xs t, h, k)

click_all-due :
    (last : ℕ) (clicks : List Click) (b : Browser)
    → all_by last clicks ≡ true
    → all_due last b.timeouts ≡ true
    → all_due last (click_all clicks b).timeouts ≡ true
unfolding click_all handle_click
click_all-due last [] b c h = h
click_all-due last ((wrapper, now, href) ∷ rest) b c h =
    click_all-due last rest (handle_click wrapper now href b) (ground (arith, c)) (
      ground
        (arith, h, c, all_due-append last b.timeouts (record { due = now + 150; href = href })))

due_by-all :
    (last : ℕ) (ts : List Timeout)
    → all_due last ts ≡ true
    → (due_by last ts ≡ ts) × (later_than last ts ≡ [])
due_by-all last [] h = (refl, refl)
due_by-all last (t ∷ rest) h =
    (ground (arith, h, due_by-all last rest), ground (arith, h, due_by-all last rest))

-- Of any clicks on links, once 150 ms have passed since each: those whose address starts with http were opened by the
-- browser, in a new tab, in order, and never by the router; every other was taken by the router exactly as
-- often as it was clicked, whether the page has a wrapper to animate or not, and no timeout is left.
pub every_click_leads :
    (last : ℕ) (clicks : List Click) (h : String)
    → all_by last clicks ≡ true
    → let b = fire last (click_all clicks init) in
      (b.defaults ≡ external clicks)
      × (count h b.pushed ≡ count h (internal clicks))
      × (b.timeouts ≡ [])
unfolding fire
every_click_leads last clicks h by =
    let b = click_all clicks init in
    let (due, left) = due_by-all last b.timeouts (click_all-due last clicks init by refl) in
    (
      click_all-defaults clicks init,
      ap (λ ts. count h (b.pushed ++ hrefs ts)) due
          ∙ count-append h b.pushed (hrefs b.timeouts)
          ∙ click_all-pending clicks h init
          ∙ ground arith,
      left,
    )
