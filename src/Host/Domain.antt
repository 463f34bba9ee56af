-- ===== src/Host/Domain.antt =====
-- The registrable domain is the public suffix with one more label of the host (src/core/match.js).
use mathlib.Core.List.{append-nil, append_assoc}
use bencpass.Prelude.{
  ◌+◌, ◌≡◌, ◌≢◌, ◌∙◌, refl, sym, ap, inl, inr, Bool, false, none, some, List, [], ◌∷◌, ◌++◌, arith,
  Bool-cases, Option-cases, All, length, if◌then◌else◌,
}
use bencpass.Text.{Text, dot, same, split, join, drop_end}
use bencpass.Text.Laws.{same_refl, drop_end-append}
use bencpass.Text.Split.{join-split, split-join, split-IsFree, split-ne-nil, IsFree}
use bencpass.Host.{
  normalise_host, is_ip_host, last_label, exception, best_rule, or_best, or_last, is_empty,
  public_suffix, registrable_domain,
}
use bencpass.Host.Suffix.{
  best_rule-IsLongest, All-append_left, join-append, last_label-snoc, last_of, snoc_of,
}

-- A non-empty tail of the labels, as a text.
record IsTail (labels : List Text) (suffix : Text) : Type 0 where
  before : List Text
  after : List Text
  split_at : labels ≡ before ++ after
  filled : after ≢ []
  text : suffix ≡ join dot after

last-IsTail : (labels : List Text) → labels ≢ [] → IsTail labels (last_label labels)
unfolding join
last-IsTail [] h = absurd (h refl)
last-IsTail (k ∷ ks) h =
    let (ls, e) = last_of k ks in
    record {
      before = ls;
      after = last_label (k ∷ ks) ∷ [];
      split_at = e;
      filled = λ n. cc;
      text = sym (append-nil (last_label (k ∷ ks)));
    }

module _ (has_rule : Text → Bool) where
  -- An exception rule of the list has more than one label.
  abbrev pub ExceptionsAreLong : Type 0
  ExceptionsAreLong = (l : Text) → IsFree dot l → has_rule (b'!' ∷ l) ≡ false

  exception-IsTail :
      ExceptionsAreLong
      → (labels : List Text) → All (IsFree dot) labels
      → (s : Text) → exception has_rule labels ≡ some s
      → IsTail labels s
  unfolding exception join
  exception-IsTail long [] free s h = cc
  exception-IsTail long (l ∷ []) free s h = cc (rw (append-nil, long l free.0) at h)
  exception-IsTail long (l ∷ m ∷ ls) free s h =
      elim (Bool-cases (has_rule (b'!' ∷ join dot (l ∷ m ∷ ls)))) [
        | inl e ↦ record {
          before = l ∷ [];
          after = m ∷ ls;
          split_at = refl;
          filled = λ k. cc;
          text = cc (rw e at h);
        }
        | inr e ↦
            let t = exception-IsTail long (m ∷ ls) free.1 s (rw e at h) in
            record {
              before = l ∷ t.before;
              after = t.after;
              split_at = ap (λ (v : List Text). l ∷ v) t.split_at;
              filled = t.filled;
              text = t.text;
            }
      ]

  best-IsTail :
      (labels : List Text)
      → labels ≢ []
      → IsTail labels (or_last (best_rule has_rule labels) labels)
  best-IsTail labels h = elim (Bool-cases (is_empty (best_rule has_rule labels))) [
    | inl e ↦ rw e (last-IsTail labels h)
    | inr e ↦ elim (best_rule-IsLongest has_rule labels) [
      | inl b ↦ rw e (record {
        before = b.before;
        after = b.label ∷ b.after;
        split_at = b.split_at;
        filled = λ k. cc;
        text = b.text;
      })
      | inr n ↦ cc (rw (n.1) at e)
    ]
  ]

  or_best-IsTail :
      ExceptionsAreLong
      → (labels : List Text) → labels ≢ []
      → All (IsFree dot) labels
      → IsTail labels (or_best has_rule (exception has_rule labels) labels)
  or_best-IsTail long labels h free = elim (Option-cases (exception has_rule labels)) [
    | inl e ↦ rw e (best-IsTail labels h)
    | inr (s, e) ↦ rw e (exception-IsTail long labels free s e)
  ]

-- The host, from its labels.
pub record IsSplit (h suffix domain : Text) : Type 0 where
  pub before : List Text
  pub label : Text
  pub after : List Text
  pub labels : split dot h ≡ before ++ label ∷ after
  pub filled : after ≢ []
  pub suffix_text : suffix ≡ join dot after
  pub domain_text : domain ≡ join dot (label ∷ after)

-- the label that `registrableDomain` puts before the suffix
abbrev pub label_before : Text → Text → Text
label_before h s = last_label (split dot (drop_end (length s + 1) h))

-- The part of a host before a tail of its labels, and the last label of that part.
before_of :
    (h : Text) (k : Text) (ks : List Text) (a : Text) (as' : List Text)
    → split dot h ≡ (k ∷ ks) ++ a ∷ as'
    → split dot (drop_end (length (join dot (a ∷ as')) + 1) h) ≡ k ∷ ks
before_of h k ks a as' e =
    let tail : Text = join dot (a ∷ as') in
    let whole : h ≡ join dot (k ∷ ks) ++ (dot ∷ tail) =
      sym (join-split dot h) ∙ ap (join dot) e ∙ join-append dot k ks a as' in
    let size : length tail + 1 ≡ length (dot ∷ tail) = omega arith in
    let free : All (IsFree dot) (k ∷ ks) =
      All-append_left (IsFree dot) (k ∷ ks) (a ∷ as') (rw e at (split-IsFree dot h)) in
    rw size (
      ap (λ (t : Text). split dot (drop_end (length (dot ∷ tail)) t)) whole
      ∙ ap (split dot) (drop_end-append (join dot (k ∷ ks)) (dot ∷ tail))
      ∙ split-join dot k ks free)

module _ (h : Text) where
  split_domain :
      (before after : List Text) (s : Text)
      → split dot h ≡ before ++ after
      → after ≢ []
      → s ≡ join dot after
      → same h s ≡ false
      → IsSplit h s (label_before h s ++ (dot ∷ s))
  split_domain before [] s e filled text ne = absurd (filled refl)
  split_domain [] (a ∷ as') s e filled text ne =
      let whole : h ≡ s = sym (join-split dot h) ∙ ap (join dot) e ∙ sym text in
      cc (ne, same_refl s, ap (λ (t : Text). same t s) whole)
  split_domain (k ∷ ks) (a ∷ as') s e filled text ne =
      let (ls, l, snoc) = snoc_of k ks in
      let found : label_before h s ≡ l =
        rw text
          (ap last_label (before_of h k ks a as' e) ∙ ap last_label snoc ∙ last_label-snoc ls l) in
      record {
        before = ls;
        label = l;
        after = a ∷ as';
        labels = e ∙ ap (λ (v : List Text). v ++ a ∷ as') snoc ∙ append_assoc ls (l ∷ []) (a ∷ as');
        filled = filled;
        suffix_text = text;
        domain_text = rw (found, text) (unfold join in refl);
      }

suffix_of :
    (has_rule : Text → Bool) (h : Text)
    → is_empty h ≡ false
    → is_ip_host h ≡ false
    → normalise_host h ≡ h
    → public_suffix has_rule h ≡ or_best has_rule (exception has_rule (split dot h)) (split dot h)
unfolding public_suffix
suffix_of has_rule h e i n = rw n (rw (e, i))

branch :
    (empty ip whole : Bool) (h x d : Text)
    → (if empty then none else if ip then some h else if whole then none else some x) ≡ some d
    → ip ≡ false
    → (empty ≡ false) × (whole ≡ false) × (x ≡ d)
branch empty ip whole h x d e i = ground arith

module _ (has_rule : Text → Bool) (host d : Text) where
  -- For a host whose normal form is stable and is no address, under a list whose exception rules
  -- have more than one label: if it has a registrable domain, that is the public suffix, which is
  -- a non-empty tail of the host's labels, with exactly the one label of the host before it.
  pub registrable_domain-IsSplit :
      ExceptionsAreLong has_rule
      → normalise_host (normalise_host host) ≡ normalise_host host
      → is_ip_host (normalise_host host) ≡ false
      → registrable_domain has_rule host ≡ some d
      → IsSplit (normalise_host host) (public_suffix has_rule (normalise_host host)) d
  unfolding registrable_domain
  registrable_domain-IsSplit long stable ip r =
      let h = normalise_host host in
      let labels = split dot h in
      let s = public_suffix has_rule h in
      let (filled, proper, text) =
        branch (is_empty h) (is_ip_host h) (same h s) h (label_before h s ++ (dot ∷ s)) d r ip in
      let t = or_best-IsTail has_rule long labels (split-ne-nil dot h) (split-IsFree dot h) in
      rw (← text) (
        split_domain h t.before t.after s t.split_at t.filled
          (suffix_of has_rule h filled ip stable ∙ t.text) proper)
