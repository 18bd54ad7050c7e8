-- ===== src/AuthK8s/Cidr.antt =====
-- The CIDR test of project/auth_k8s.c.
use mathlib.Core.Path.{subst}
use otus_c.Common.{ℕ, ◌-◌, ◌/◌, ◌^◌, ◌≤◌, ◌<◌, ◌≡◌, ◌↔◌, sym, ap, ◌∙◌}
use otus_c.Common.{Option-cases, true, false, none, some, arith, inl, inr, Text}
use otus_c.AuthK8s.{
  Aton, CidrConfig, htonl, cidr_mask, is_ip_in_cidr, split_slash, atoi, parse_cidr,
}
use otus_c.AuthK8s.Masks.{same_network}

-- What `inet_aton` gives is a 32-bit address.
abbrev pub IsAddress : Aton → Type 0
IsAddress inet_aton = (t : Text) (a : ℕ) → inet_aton t ≡ some a → a < 2 ^ 32

-- What a configuration says: the address and the length of a prefix, and whose address has it.
pub record Describes (inet_aton : Aton) (env addr : Text) (config : CidrConfig) : Type 0 where
  pub rest : Text
  pub bits : ℕ
  pub network : ℕ
  pub cut : split_slash env ≡ some (addr, rest)
  pub length : atoi rest ≡ some bits
  pub short : bits ≤ 32
  pub address : inet_aton addr ≡ some network
  pub valid : config.valid ≡ true
  pub inside :
      (ip : Text) (a : ℕ)
      → inet_aton ip ≡ some a
      → (is_ip_in_cidr inet_aton ip config ≡ true)
        ↔ (a / 2 ^ (32 - bits) ≡ network / 2 ^ (32 - bits))
  pub outside : (ip : Text) → inet_aton ip ≡ none → is_ip_in_cidr inet_aton ip config ≡ false

-- The parts that an accepted setting was put together from.
record Parts (inet_aton : Aton) (env addr : Text) (config : CidrConfig) : Type 0 where
  rest : Text
  bits : ℕ
  network : ℕ
  cut : split_slash env ≡ some (addr, rest)
  length : atoi rest ≡ some bits
  short : bits ≤ 32
  address : inet_aton addr ≡ some network
  made : config ≡ record { network = htonl network; mask = cidr_mask bits; valid = true }

parse_cidr-Parts :
    (inet_aton : Aton) (env addr : Text) (config : CidrConfig)
    → parse_cidr inet_aton env ≡ some (addr, config)
    → Parts inet_aton env addr config
unfolding parse_cidr
parse_cidr-Parts inet_aton env addr config e = elim (Option-cases (split_slash env)) [
  | inl c ↦ absurd (ground (arith, e, c))
  | inr ((addr', rest), c) ↦ elim (Option-cases (atoi rest)) [
    | inl d ↦ absurd (ground (arith, e, c, d))
    | inr (bits, d) ↦ elim (Option-cases (inet_aton addr')) [
      | inl f ↦ absurd (ground (arith, e, c, d, f))
      | inr (n, f) ↦ record {
        rest = rest;
        bits = bits;
        network = n;
        cut = ground (arith, e, c, d, f);
        length = d;
        short = ground (arith, e, c, d, f);
        address = ground (arith, e, c, d, f);
        made = ground (arith, e, c, d, f);
      }
    ]
  ]
]

module _ (inet_aton : Aton) (bits network : ℕ) where
  abbrev made_of : CidrConfig
  made_of = record { network = htonl network; mask = cidr_mask bits; valid = true }

  inside_made :
      (ip : Text) (a : ℕ)
      → bits ≤ 32
      → network < 2 ^ 32
      → a < 2 ^ 32
      → inet_aton ip ≡ some a
      → (is_ip_in_cidr inet_aton ip made_of ≡ true)
        ↔ (a / 2 ^ (32 - bits) ≡ network / 2 ^ (32 - bits))
  unfolding is_ip_in_cidr
  inside_made ip a h ln la f =
      let same = same_network bits a network h la ln in
      (λ e. same.0 (ground (arith, e, f)), λ e. let agree = same.1 e in ground (arith, agree, f))

  outside_made : (ip : Text) → inet_aton ip ≡ none → is_ip_in_cidr inet_aton ip made_of ≡ false
  unfolding is_ip_in_cidr
  outside_made ip f = ground (arith, f)

-- A setting that is accepted is `<address>/<bits>` with at most 32 bits, and the test that it sets
-- up holds of an address exactly if that agrees with the setting's in its first `bits` bits; what is
-- no address is outside. `inet_aton` is taken to give 32-bit addresses.
pub parse_cidr-Describes :
    (inet_aton : Aton) (env addr : Text) (config : CidrConfig)
    → IsAddress inet_aton
    → parse_cidr inet_aton env ≡ some (addr, config)
    → Describes inet_aton env addr config
parse_cidr-Describes inet_aton env addr config sound e =
    let p = parse_cidr-Parts inet_aton env addr config e in
    record {
      rest = p.rest;
      bits = p.bits;
      network = p.network;
      cut = p.cut;
      length = p.length;
      short = p.short;
      address = p.address;
      valid = ap (λ (c : CidrConfig). c.valid) p.made;
      inside = λ ip a f.
          subst
            (λ c.
              (is_ip_in_cidr inet_aton ip c ≡ true)
              ↔ (a / 2 ^ (32 - p.bits) ≡ p.network / 2 ^ (32 - p.bits)))
            (sym p.made)
            (inside_made inet_aton p.bits p.network ip a p.short (sound addr p.network p.address)
              (sound ip a f) f);
      outside = λ ip f.
          ap (is_ip_in_cidr inet_aton ip) p.made ∙ outside_made inet_aton p.bits p.network ip f;
    }

pub valid-parse_cidr :
    (inet_aton : Aton) (env addr : Text) (config : CidrConfig)
    → parse_cidr inet_aton env ≡ some (addr, config)
    → config.valid ≡ true
valid-parse_cidr inet_aton env addr config e =
    ap (λ (c : CidrConfig). c.valid) (parse_cidr-Parts inet_aton env addr config e).made
