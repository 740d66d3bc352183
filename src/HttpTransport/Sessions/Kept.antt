-- ===== src/HttpTransport/Sessions/Kept.antt =====
-- What the admission limiter of internal/httptransport/server.go keeps of a principal, against the
-- requests that were let through.
use repo_plane.Base.{
  ℕ, ◌*◌, ◌+◌, ◌-◌, ◌≤◌, ◌<◌, String, ◌≡◌, refl, inl, inr, true, false, Option, none, some, List,
  arith, ◌==◌, String_eq, ℕ_eq, if◌then◌else◌, lookup, insert, lookup-insert, Bool-cases, eq_iff,
  sym, subst, ◌∙◌,
}
use repo_plane.HttpTransport.{PrincipalState, second, is_idle, fresh, in_minute}
use repo_plane.HttpTransport.Sessions.{minute_of, opened, passes}

-- What the limiter keeps of a principal.
pub record Kept (per : ℕ) (opened : ℕ) (passes : ℕ → ℕ) (now : ℕ) (st : PrincipalState)
    : Type 0 where
  pub active : st.active ≡ opened
  pub room : st.active ≤ per
  pub counted : st.count ≡ passes st.minute
  pub past : st.minute ≤ minute_of now
  pub seen_past : st.seen ≤ now
  pub after : (minute : ℕ) → st.minute < minute → passes minute ≡ 0
  pub late : minute_of st.seen < st.minute → st.count ≡ 0

unfoldable pub Known : ℕ → ℕ → (ℕ → ℕ) → ℕ → Option PrincipalState → Type 0
Known per opened passes now none = (opened ≡ 0) × ((m : ℕ) → minute_of now ≤ m → passes m ≡ 0)
Known per opened passes now (some st) = Kept per opened passes now st

minute_of_mono : (a b : ℕ) → a ≤ b → minute_of a ≤ minute_of b
unfolding minute_of
minute_of_mono a b h = omega (arith, h)

pub later-Known :
    (per : ℕ) (n : ℕ) (f : ℕ → ℕ) (now now' : ℕ) (found : Option PrincipalState)
    → now ≤ now'
    → Known per n f now found
    → Known per n f now' found
unfolding Known
later-Known per n f now now' none h (none_open, none_passed) =
    (none_open, λ m le. none_passed m (omega (arith, le, minute_of_mono now now' h)))
later-Known per n f now now' (some st) h k = record {
  active = k.active;
  room = k.room;
  counted = k.counted;
  past = omega (arith, k.past, minute_of_mono now now' h);
  seen_past = omega (arith, k.seen_past, h);
  after = k.after;
  late = k.late;
}

idle_minute : (seen now : ℕ) → seen + 120 * second < now → minute_of seen < minute_of now
unfolding minute_of
idle_minute seen now h = omega (arith, h)

pub idle-Known :
    (per : ℕ) (n : ℕ) (f : ℕ → ℕ) (now : ℕ) (k : String) (st : PrincipalState)
    → is_idle now (k, st) ≡ true
    → Kept per n f now st
    → Known per n f now none
unfolding Known
idle-Known per n f now k st idle kept = (
  ground (arith, idle, kept.active),
  λ m le. elim (Bool-cases (st.minute == m)) [
    | inr other ↦ kept.after m (ground (arith, other, le, kept.past))
    | inl same ↦
        (let at : st.minute ≡ m = ground (arith, same) in
          subst (λ x. f x ≡ 0) at
            (sym kept.counted
              ∙ kept.late (omega (arith, idle_minute st.seen now (ground (arith, idle)), at, le))))
  ],
)

pub minute-Kept :
    (per n : ℕ) (f : ℕ → ℕ) (now : ℕ) (st : PrincipalState)
    → Kept per n f now st
    → Kept per n f now (in_minute (minute_of now) st)
unfolding in_minute
minute-Kept per n f now st kept = elim (Bool-cases (st.minute == minute_of now)) [
  | inl same ↦ rw same kept
  | inr other ↦
      (let earlier : st.minute < minute_of now = ground (arith, other, kept.past) in
        rw other (record {
          active = kept.active;
          room = kept.room;
          counted = sym (kept.after (minute_of now) earlier);
          past = omega arith;
          seen_past = kept.seen_past;
          after = λ m later. kept.after m (omega (arith, earlier, later));
          late = λ h. refl;
        }))
]

pub fresh-Kept :
    (per n : ℕ) (f : ℕ → ℕ) (now : ℕ)
    → Known per n f now none
    → Kept per n f now (in_minute (minute_of now) fresh)
unfolding in_minute Known
fresh-Kept per n f now (unopened, unpassed) = elim (Bool-cases (0 == minute_of now)) [
  | inl same ↦
      (let at : minute_of now ≡ 0 = ground (arith, same) in
        rw same (record {
          active = sym unopened;
          room = omega arith;
          counted = sym (unpassed 0 (omega (arith, at)));
          past = omega arith;
          seen_past = omega arith;
          after = λ m later. unpassed m (omega (arith, at, later));
          late = λ h. refl;
        }))
  | inr other ↦ rw other (record {
    active = sym unopened;
    room = omega arith;
    counted = sym (unpassed (minute_of now) (omega arith));
    past = omega arith;
    seen_past = omega arith;
    after = λ m later. unpassed m (omega (arith, later));
    late = λ h. refl;
  })
]

pub let_in-Kept :
    (per n : ℕ) (f : ℕ → ℕ) (now : ℕ) (st : PrincipalState)
    → Kept per n f now st
    → st.minute ≡ minute_of now
    → st.active < per
    → Kept per
        (1 + n)
        (λ m. (if minute_of now == m then 1 else 0) + f m)
        now
        (record st { count = st.count + 1; active = st.active + 1; seen = now })
let_in-Kept per n f now st kept at room = record {
  active = omega (arith, kept.active);
  room = omega (arith, room);
  counted = ground (arith, kept.counted, at);
  past = kept.past;
  seen_past = omega arith;
  after = λ m later. ground (arith, kept.after m later, at, later);
  late = λ h. absurd (omega (arith, h, at));
}

pub release-Kept :
    (per n : ℕ) (f : ℕ → ℕ) (now : ℕ) (st : PrincipalState)
    → Kept per n f now st
    → Kept per (n - 1) f now (record st { active = st.active - 1; seen = now })
release-Kept per n f now st kept = record {
  active = omega (arith, kept.active);
  room = omega (arith, kept.room);
  counted = kept.counted;
  past = kept.past;
  seen_past = omega arith;
  after = kept.after;
  late = λ h. absurd (omega (arith, h, kept.past));
}

pub insert-Known :
    (per : ℕ) (n : String → ℕ) (f : String → ℕ → ℕ) (now : ℕ) (k : String) (st : PrincipalState)
    (m : List (String × PrincipalState))
    → ((j : String) → (k == j) ≡ false → Known per (n j) (f j) now (lookup j m))
    → Kept per (n k) (f k) now st
    → (j : String) → Known per (n j) (f j) now (lookup j (insert k st m))
unfolding Known
insert-Known per n f now k st m others kept j = elim (Bool-cases (k == j)) [
  | inl same ↦
      rw (lookup-insert k j st m, same)
        (subst (λ i. Kept per (n i) (f i) now st) ((eq_iff k j).0 same) kept)
  | inr other ↦ rw (lookup-insert k j st m, other) (others j other)
]

pub same-Known :
    (per : ℕ) {n n' : ℕ} {f f' : ℕ → ℕ} (now : ℕ) (found : Option PrincipalState)
    → n ≡ n'
    → ((m : ℕ) → f m ≡ f' m)
    → Known per n f now found
    → Known per n' f' now found
unfolding Known
same-Known per now none opens passed (unopened, unpassed) =
    (sym opens ∙ unopened, λ m le. sym (passed m) ∙ unpassed m le)
same-Known per now (some st) opens passed kept = record {
  active = kept.active ∙ opens;
  room = kept.room;
  counted = kept.counted ∙ passed st.minute;
  past = kept.past;
  seen_past = kept.seen_past;
  after = λ m later. sym (passed m) ∙ kept.after m later;
  late = kept.late;
}
