-- ===== src/Host/Tests.antt =====
-- Concrete hosts, under a list of four rules.
use bencpass.Prelude.{◌≡◌, inl, inr, ap, Bool-cases, refl, Bool, true, false, ◌||◌, none, some}
use bencpass.Text.{Text, dot, same, split, join, has_char}
use bencpass.Text.Codes.{codes}
use bencpass.Text.Laws.{eq_of_same}
use bencpass.Host.{
  normalise_host, is_ip_host, is_private_host, public_suffix, registrable_domain, same_site,
}
use bencpass.Host.Domain.{ExceptionsAreLong, IsSplit, registrable_domain-IsSplit}

abbrev rules : Text → Bool
rules t =
    same t (codes "com")
    || same t (codes "uk")
    || same t (codes "co.uk")
    || same t (codes "*.ck")
    || same t (codes "!www.ck")

domain_of_uk :
    registrable_domain rules (codes "Login.Example.CO.UK.") ≡ some (codes "example.co.uk")
unfolding registrable_domain normalise_host is_ip_host same split join has_char
domain_of_uk = refl

domain_of_exception : registrable_domain rules (codes "a.www.ck") ≡ some (codes "www.ck")
unfolding registrable_domain normalise_host is_ip_host same split join has_char
domain_of_exception = refl

suffix_alone : registrable_domain rules (codes "co.uk") ≡ none
unfolding registrable_domain normalise_host is_ip_host same split join has_char
suffix_alone = refl

lookalike : same_site rules (codes "evil-google.com") (codes "google.com") ≡ false
unfolding same_site registrable_domain normalise_host is_ip_host same split join has_char
lookalike = refl

private_hosts :
    (is_private_host (codes "192.168.1.1") ≡ true) × (is_private_host (codes "172.32.0.1") ≡ false)
unfolding is_private_host same
private_hosts = (refl, refl)

-- Two trailing dots leave an empty label, and any two such hosts under one suffix are one site.
two_dots : same_site rules (codes "evil.com..") (codes "bank.com..") ≡ true
unfolding same_site registrable_domain normalise_host is_ip_host same split join has_char
two_dots = refl

exceptions_long : ExceptionsAreLong rules
unfolding same has_char
exceptions_long l h = elim (Bool-cases (same l (codes "www.ck"))) [
  | inl e ↦ cc (h, ap (has_char dot) (eq_of_same l (codes "www.ck") e))
  | inr e ↦ e
]

registrable_domain-IsSplit_example :
    IsSplit
      (codes "a.example.co.uk")
      (public_suffix rules (codes "a.example.co.uk"))
      (codes "example.co.uk")
unfolding registrable_domain normalise_host is_ip_host same split join has_char
registrable_domain-IsSplit_example =
    registrable_domain-IsSplit rules (codes "a.example.co.uk") (codes "example.co.uk")
      exceptions_long refl refl refl
