-- ===== src/Mode/Remote/Yields.antt =====
-- Reasoning on actions of mode/mode_remote.go: what holds of the result and of the history after it
-- and ever after, given that a history only grows.
use terraform_provisioner_an.Base.{
  ◌≡◌, refl, ◌⊎◌, inl, inr, Bool, true, false, Option, none, some, List, [], ◌∷◌, Text,
  if◌then◌else◌,
}
use mathlib.Core.Path.{subst}
use terraform_provisioner_an.Base.Outcome.{
  Outcome, ok, err, panic, ok-injective, err-ne-ok, panic-ne-ok,
}
use terraform_provisioner_an.Mode.Remote.{
  Event, Session, Action, pure, lift, ◌>>=◌, continue, logged, answer,
}

-- The second history has the first one in it, and what came later.
pub data Later (h : List Event) : List Event → Type 0 where
  same : Later h h
  more : {k : List Event} → (e : Event) → Later h k → Later h (e ∷ k)

pub Later-trans : {h k l : List Event} → Later h k → Later k l → Later h l
Later-trans p same = p
Later-trans p (more e q) = more e (Later-trans p q)

-- Some event of the history satisfies the predicate.
abbrev pub Some : (Event → Type 0) → List Event → Type 0
Some P [] = ⊥
Some P (e ∷ h) = P e ⊎ Some P h

pub Some-Later : (P : Event → Type 0) {h k : List Event} → Later h k → Some P h → Some P k
Some-Later P same p = p
Some-Later P (more e q) p = inr (Some-Later P q p)

-- What holds of the history and of every later one.
abbrev pub Ever : (List Event → Type 0) → List Event → Type 0
Ever P h = (k : List Event) → Later h k → P k

abbrev pub Post :
    {A : Type 0} → List Event → (A → List Event → Type 0) → Outcome A × Session → Type 0
Post h Q (ok a, s') = Later h s'.history × Ever (Q a) s'.history
Post h Q (err e, s') = Later h s'.history
Post h Q (panic, s') = Later h s'.history

-- A result of the action satisfies `Q` with the history that it leaves and those that follow.
pub record Yields {A : Type 0} (s : Session) (m : Action A) (Q : A → List Event → Type 0)
    : Type 0 where
  pub at : Post s.history Q (m s)

at_end :
    {A : Type 0} (Q : A → List Event → Type 0) (h : List Event) (r : Outcome A × Session) (a : A)
    → r.0 ≡ ok a
    → Post h Q r
    → Q a r.1.history
at_end Q h (ok b, s') a e (l, q) = subst (λ x. Q x s'.history) (ok-injective e) (q s'.history same)
at_end Q h (err x, s') a e l = absurd (err-ne-ok e)
at_end Q h (panic, s') a e l = absurd (panic-ne-ok e)

Post-map :
    {A : Type 0} (Q R : A → List Event → Type 0) (h : List Event) (r : Outcome A × Session)
    → ((a : A) (h : List Event) → Q a h → R a h)
    → Post h Q r
    → Post h R r
Post-map Q R h (ok a, s') f (l, q) = (l, λ k m. f a k (q k m))
Post-map Q R h (err e, s') f l = l
Post-map Q R h (panic, s') f l = l

module _ {A : Type 0} {Q : A → List Event → Type 0} where
  pub Yields-pure : (s : Session) (a : A) → Ever (Q a) s.history → Yields s (pure a) Q
  Yields-pure s a q = record { at = (same, q) }

  pub Yields-lift :
      (s : Session) (o : Outcome A)
      → ((a : A) → o ≡ ok a → Ever (Q a) s.history)
      → Yields s (lift o) Q
  Yields-lift s (ok a) q = record { at = (same, q a refl) }
  Yields-lift s (err e) q = record { at = same }
  Yields-lift s panic q = record { at = same }

  pub Yields-if :
      (s : Session) (b : Bool) (m n : Action A)
      → (b ≡ true → Yields s m Q)
      → (b ≡ false → Yields s n Q)
      → Yields s (if b then m else n) Q
  Yields-if s true m n p q = p refl
  Yields-if s false m n p q = q refl

  pub Yields-weaken :
      {R : A → List Event → Type 0} (s : Session) (m : Action A)
      → Yields s m Q
      → ((a : A) (h : List Event) → Q a h → R a h)
      → Yields s m R
  Yields-weaken {R} s m p f = record { at = Post-map Q R s.history (m s) f p.at }

  pub Yields-result :
      (s : Session) (m : Action A) (a : A) → Yields s m Q → (m s).0 ≡ ok a → Q a (m s).1.history
  Yields-result s m a p e = at_end Q s.history (m s) a e p.at

-- A request that is answered by an error or none.
pub Post-answer :
    (P : Event → Type 0) (s : Session) (event : Option Text → Event) (reply : Option Text)
    → P (event none)
    → Post s.history (λ _. Some P) (answer reply, logged (event reply) s)
Post-answer P s event none p = (more (event none) same, λ k l. Some-Later P l (inl p))
Post-answer P s event (some e) p = more (event (some e)) same

Post-weaken :
    {A : Type 0} (Q : A → List Event → Type 0) {h k : List Event} (r : Outcome A × Session)
    → Later h k
    → Post k Q r
    → Post h Q r
Post-weaken Q (ok a, s') l (k, q) = (Later-trans l k, q)
Post-weaken Q (err e, s') l k = Later-trans l k
Post-weaken Q (panic, s') l k = Later-trans l k

Post-continue :
    {A B : Type 0} (Q : A → List Event → Type 0) (R : B → List Event → Type 0) (h : List Event)
    (o : Outcome A) (s' : Session) (f : A → Action B)
    → Post h Q (o, s')
    → ((a : A) (t : Session) → Later h t.history → Ever (Q a) t.history → Yields t (f a) R)
    → Post h R (continue o s' f)
Post-continue Q R h (err e) s' f p rest = p
Post-continue Q R h panic s' f p rest = p
Post-continue Q R h (ok a) s' f (l, q) rest = Post-weaken R (f a s') l (rest a s' l q).at

module _ {A B : Type 0} {Q : A → List Event → Type 0} {R : B → List Event → Type 0} where
  pub Yields-bind :
      (s : Session) (m : Action A) (f : A → Action B)
      → Yields s m Q
      → ((a : A) (t : Session)
          → Later s.history t.history
          → Ever (Q a) t.history
          → Yields t (f a) R)
      → Yields s (m >>= f) R
  Yields-bind s m f p rest = record { at = Post-continue Q R s.history (m s).0 (m s).1 f p.at rest }
