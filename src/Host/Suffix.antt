-- ===== src/Host/Suffix.antt =====
-- What the public suffix and the registrable domain of a host are (src/core/match.js).
use mathlib.Core.List.{append_assoc, append-nil}
use bencpass.Prelude.{
  ℕ, ◌≡◌, ◌∙◌, refl, sym, ap, ◌⊎◌, inl, inr, Bool, true, false, List, [], ◌∷◌, ◌++◌, Bool-cases,
  All,
}
use bencpass.Text.{Text, dot, join, join_more}
use bencpass.Host.{last_label, is_rule, best_rule}

pub All-append_left : (P : Text → Type 0) (xs ys : List Text) → All P (xs ++ ys) → All P xs
All-append_left P [] ys h = tt
All-append_left P (x ∷ xs) ys h = (h.0, All-append_left P xs ys h.1)

pub All-append_right : (P : Text → Type 0) (xs ys : List Text) → All P (xs ++ ys) → All P ys
All-append_right P [] ys h = h
All-append_right P (x ∷ xs) ys h = All-append_right P xs ys h.1

join_more-append :
    (c : ℕ) (ws : List Text) (v : Text) (vs : List Text)
    → join_more c (ws ++ v ∷ vs) ≡ join_more c ws ++ (c ∷ join c (v ∷ vs))
unfolding join
join_more-append c [] v vs = refl
join_more-append c (w ∷ ws) v vs =
    ap (λ (t : Text). c ∷ t)
      (ap (λ (t : Text). w ++ t) (join_more-append c ws v vs)
        ∙ sym (append_assoc w (join_more c ws) (c ∷ join c (v ∷ vs))))

pub join-append :
    (c : ℕ) (w : Text) (ws : List Text) (v : Text) (vs : List Text)
    → join c ((w ∷ ws) ++ v ∷ vs) ≡ join c (w ∷ ws) ++ (c ∷ join c (v ∷ vs))
unfolding join
join-append c w ws v vs =
    ap (λ (t : Text). w ++ t) (join_more-append c ws v vs)
    ∙ sym (append_assoc w (join_more c ws) (c ∷ join c (v ∷ vs)))

pub last_label-snoc : (ls : List Text) (l : Text) → last_label (ls ++ l ∷ []) ≡ l
unfolding last_label
last_label-snoc [] l = refl
last_label-snoc (k ∷ []) l = refl
last_label-snoc (k ∷ m ∷ ls) l = last_label-snoc (m ∷ ls) l

pub snoc_of : (k : Text) (ks : List Text) → (ls : List Text) × (l : Text) × (k ∷ ks ≡ ls ++ l ∷ [])
snoc_of k [] = ([], k, refl)
snoc_of k (m ∷ ks) = let (ls, l, e) = snoc_of m ks in (k ∷ ls, l, ap (λ (v : List Text). k ∷ v) e)

pub last_of :
    (k : Text) (ks : List Text) → (ls : List Text) × (k ∷ ks ≡ ls ++ last_label (k ∷ ks) ∷ [])
last_of k ks =
    let (ls, l, e) = snoc_of k ks in
    (ls, rw e (ap (λ (m : Text). ls ++ m ∷ []) (sym (last_label-snoc ls l))))

module _ (has_rule : Text → Bool) where
  -- No rule matches a tail of `pre ++ ls` that is longer than `ls`.
  abbrev pub NoLonger : List Text → List Text → Type 0
  NoLonger [] ls = Unit
  NoLonger (p ∷ pre) ls = (is_rule has_rule p (pre ++ ls) ≡ false) × NoLonger pre ls

  -- The longest tail of the labels that a rule matches.
  pub record IsLongest (labels : List Text) (suffix : Text) : Type 0 where
    pub before : List Text
    pub label : Text
    pub after : List Text
    pub split_at : labels ≡ before ++ label ∷ after
    pub rule : is_rule has_rule label after ≡ true
    pub longest : NoLonger before (label ∷ after)
    pub text : suffix ≡ join dot (label ∷ after)

  -- The loop over the candidates finds the longest tail of the labels that a rule matches, or no
  -- rule matches a tail and it finds nothing.
  pub best_rule-IsLongest :
      (labels : List Text)
      → IsLongest labels (best_rule has_rule labels)
        ⊎ (NoLonger labels [] × (best_rule has_rule labels ≡ []))
  unfolding best_rule
  best_rule-IsLongest [] = inr (tt, refl)
  best_rule-IsLongest (l ∷ ls) = elim (Bool-cases (is_rule has_rule l ls)) [
    | inl e ↦ inl (record {
      before = [];
      label = l;
      after = ls;
      split_at = refl;
      rule = e;
      longest = tt;
      text = rw e;
    })
    | inr e ↦ elim (best_rule-IsLongest ls) [
      | inl b ↦ inl (record {
        before = l ∷ b.before;
        label = b.label;
        after = b.after;
        split_at = ap (λ (v : List Text). l ∷ v) b.split_at;
        rule = b.rule;
        longest = (rw (b.split_at) at e, b.longest);
        text = rw e b.text;
      })
      | inr n ↦ inr ((rw append-nil e, n.0), rw e n.1)
    ]
  ]
