-- ===== src/Dates/Calendar.antt =====
-- Laws of the calendar that the periods need.
use dbextractors.Base.{
  ℕ, zero, suc, ◌+◌, ◌≤◌, ◌<◌, ◌≡◌, refl, sym, ap, ◌∙◌, none, some, arith, inl, inr, Option-cases,
}
use native.Mathlib.Decide.{dec_lt}
use dbextractors.Dates.{Date, date, days_in_month, next_month, next_day, add_days, first_of_month}

pub days_in_month_bounds : (y m : ℕ) → (28 ≤ days_in_month y m) × (days_in_month y m ≤ 31)
unfolding days_in_month
days_in_month_bounds y m = ground arith

pub next_day_inside :
    (y m d : ℕ) → d < days_in_month y m → next_day (date y m d) ≡ some (date y m (d + 1))
unfolding next_day
next_day_inside y m d h = ground arith

pub next_day_last :
    (y m d : ℕ) → days_in_month y m ≤ d → next_day (date y m d) ≡ next_month (date y m d)
unfolding next_day
next_day_last y m d h = ground arith

pub add_days_step : (n : ℕ) (t u : Date) → next_day t ≡ some u → add_days (suc n) t ≡ add_days n u
unfolding add_days
add_days_step n t u e = ground arith

pub add_days_stop : (n : ℕ) (t : Date) → next_day t ≡ none → add_days (suc n) t ≡ none
unfolding add_days
add_days_stop n t e = ground arith

-- Days added within a month.
add_days_inside :
    (n y m d : ℕ) → d + n ≤ days_in_month y m → add_days n (date y m d) ≡ some (date y m (d + n))
add_days_inside zero y m d h = unfold add_days in ap (λ k. some (date y m k)) (omega arith)
add_days_inside (suc n) y m d h =
    add_days_step n (date y m d) (date y m (d + 1)) (next_day_inside y m d (omega arith))
    ∙ add_days_inside n y m (d + 1) (omega arith)
    ∙ ap (λ k. some (date y m k)) (omega arith)

next_month_first : (t u : Date) → next_month t ≡ some u → u ≡ date u.year u.month 1
unfolding next_month
next_month_first t u e = ground arith

next_month_any : (y m d e : ℕ) → next_month (date y m d) ≡ next_month (date y m e)
unfolding next_month
next_month_any y m d e = refl

-- Days that reach into the next month, but not past its 28th.
pub add_days_across :
    (n y m d : ℕ)
    → d ≤ days_in_month y m
    → days_in_month y m < d + n
    → d + n ≤ days_in_month y m + 28
    → first_of_month (add_days n (date y m d)) ≡ next_month (date y m d)
add_days_across zero y m d h low high = absurd (omega arith)
add_days_across (suc n) y m d h low high = elim (dec_lt d (days_in_month y m)) [
  | yes inside ↦
      rw (add_days_step n (date y m d) (date y m (d + 1)) (next_day_inside y m d inside)) (
        add_days_across n y m (d + 1) (omega arith) (omega arith) (omega arith)
        ∙ next_month_any y m (d + 1) d)
  | no last ↦ elim (Option-cases (next_month (date y m d))) [
    | inl over ↦
        rw (add_days_stop n (date y m d) (next_day_last y m d (omega arith) ∙ over)) (sym over)
    | inr (u, next) ↦
        let first = next_month_first (date y m d) u next in
        let inside : 1 + n ≤ days_in_month u.year u.month =
          omega (arith, (days_in_month_bounds u.year u.month).0) in
        rw
          (
            add_days_step n (date y m d) u (next_day_last y m d (omega arith) ∙ next),
            first,
            add_days_inside n u.year u.month 1 inside,
            next,
          )
          (ap some (sym first))
  ]
]

pub date_ext : (s t : Date) → s.year ≡ t.year → s.month ≡ t.month → s.day ≡ t.day → s ≡ t
date_ext s t y m d = cc
