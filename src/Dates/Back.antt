-- ===== src/Dates/Back.antt =====
-- Days back and forth.
use dbextractors.Base.{
  ℕ, zero, suc, ◌+◌, ◌-◌, ◌<◌, ◌≡◌, refl, sym, ap, subst, ◌∙◌, some, arith, inl, inr, Option-cases,
}
use native.Mathlib.Decide.{dec_lt}
use dbextractors.Dates.{
  Date, date, max_year, days_in_month, IsDate, next_month, next_day, add_days, prev_day, sub_days,
}
use dbextractors.Dates.Calendar.{
  days_in_month_bounds, add_days_step, next_day_inside, next_day_last, add_days_stop,
}

december : (y : ℕ) → days_in_month y 12 ≡ 31
unfolding days_in_month
december y = refl

-- The day before a date is a date, and the next day leads back.
record IsBefore (t u : Date) : Type 0 where
  is_date : IsDate u
  back : next_day u ≡ some t

within : (y m d : ℕ) → IsDate (date y m d) → 1 < d → IsBefore (date y m d) (date y m (d - 1))
within y m d v low = record {
  is_date = record {
    year_in = v.year_in;
    month_in = v.month_in;
    day_in = (omega arith, omega (arith, (v.day_in).1));
  };
  back =
      next_day_inside y m (d - 1) (omega (arith, (v.day_in).1))
      ∙ ap (λ k. some (date y m k)) (omega arith);
}

month_ago :
    (y m d : ℕ)
    → IsDate (date y m d)
    → d ≡ 1
    → 1 < m
    → IsBefore (date y m d) (date y (m - 1) (days_in_month y (m - 1)))
unfolding next_month
month_ago y m d v first low =
    let (least, most) = days_in_month_bounds y (m - 1) in
    let month : m - 1 < 12 = omega (arith, (v.month_in).1) in
    let next : m - 1 + 1 ≡ m = omega arith in
    record {
      is_date = record {
        year_in = v.year_in;
        month_in = (omega arith, omega arith);
        day_in = (omega arith, omega arith);
      };
      back = next_day_last y (m - 1) (days_in_month y (m - 1)) (omega arith) ∙ ground arith;
    }

year_ago :
    (y m d : ℕ)
    → IsDate (date y m d)
    → d ≡ 1
    → m ≡ 1
    → 1 < y
    → IsBefore (date y m d) (date (y - 1) 12 31)
unfolding next_month
year_ago y m d v first january low =
    let last = december (y - 1) in
    let year : y - 1 < max_year = omega (arith, (v.year_in).1) in
    let next : y - 1 + 1 ≡ y = omega arith in
    record {
      is_date = record {
        year_in = (omega arith, omega arith);
        month_in = (omega arith, omega arith);
        day_in = (omega arith, omega arith);
      };
      back = next_day_last (y - 1) 12 31 (omega arith) ∙ ground arith;
    }

prev_day-IsBefore : (t u : Date) → IsDate t → prev_day t ≡ some u → IsBefore t u
unfolding prev_day
prev_day-IsBefore t u v e = elim (dec_lt 1 t.day) [
  | yes inside ↦
      let is : date t.year t.month (t.day - 1) ≡ u = ground arith in
      subst (IsBefore t) is (within t.year t.month t.day v inside)
  | no first ↦
      let one : t.day ≡ 1 = omega (arith, (v.day_in).0) in
      elim (dec_lt 1 t.month) [
        | yes later ↦
            let is : date t.year (t.month - 1) (days_in_month t.year (t.month - 1)) ≡ u =
              ground arith in
            subst (IsBefore t) is (month_ago t.year t.month t.day v one later)
        | no january ↦
            let new_year : t.month ≡ 1 = omega (arith, (v.month_in).0) in
            elim (dec_lt 1 t.year) [
              | yes past ↦
                  let is : date (t.year - 1) 12 31 ≡ u = ground arith in
                  subst (IsBefore t) is (year_ago t.year t.month t.day v one new_year past)
              | no start ↦ absurd (ground arith)
            ]
      ]
]

-- One more day at the end.
add_days_last :
    (n : ℕ) (u w t : Date)
    → add_days n u ≡ some w
    → next_day w ≡ some t
    → add_days (suc n) u ≡ some t
add_days_last zero u w t e next =
    let same : u ≡ w = unfold add_days in ground arith in
    add_days_step zero u t (subst (λ x. next_day x ≡ some t) (sym same) next)
    ∙ unfold add_days in refl
add_days_last (suc n) u w t e next = elim (Option-cases (next_day u)) [
  | inl over ↦ absurd (ground (arith, add_days_stop n u over))
  | inr (x, step) ↦
      add_days_step (suc n) u x step
      ∙ add_days_last n x w t (sym (add_days_step n u x step) ∙ e) next
]

-- Days back from a date lead to a date, and as many days on lead back.
pub add_days-sub_days :
    (n : ℕ) (t u : Date) → IsDate t → sub_days n t ≡ some u → IsDate u × (add_days n u ≡ some t)
unfolding sub_days
add_days-sub_days zero t u v e =
    let same : t ≡ u = ground arith in
    subst (λ x. IsDate x × (add_days zero x ≡ some t)) same (v, unfold add_days in refl)
add_days-sub_days (suc n) t u v e = elim (Option-cases (prev_day t)) [
  | inl none_before ↦ absurd (ground arith)
  | inr (w, back) ↦
      let b = prev_day-IsBefore t w v back in
      let (date_u, forth) = add_days-sub_days n w u b.is_date (ground arith) in
      (date_u, add_days_last n u w t forth b.back)
]
