-- ===== src/Params/Names.antt =====
-- The names that parse_cmdline_args stores.
use fide.Base.{
  ℕ, zero, suc, ◌≡◌, ◌≢◌, ◌⊎◌, inl, inr, refl, List, [], ◌∷◌, ◌++◌, Bool, true, false, ◌&&◌, not,
  Option, none, some, arith, ltb, ◌==◌, if◌then◌else◌, ◌>>=◌, length, Option-cases,
}
use fide.Packet.{Bytes}
use fide.Params.{Config, Choice, strncpy, apply, parse_cmdline_args, set_dev, set_redirect_dev}

-- The string that a reader of a buffer finds: up to the first zero, which must be there.
unfoldable pub c_string : Bytes → Option Bytes
c_string [] = none
c_string (c ∷ cs) = if c == 0 then some [] else (do s ← c_string cs; some (c ∷ s))

unfoldable pub has_no_zero : Bytes → Bool
has_no_zero [] = true
has_no_zero (c ∷ cs) = not (c == 0) && has_no_zero cs

-- A buffer that strncpy filled holds the whole string where it is shorter than the buffer, and
-- no string at all where it is not.
pub c_string-strncpy :
    (n : ℕ) (s : Bytes)
    → has_no_zero s ≡ true
    → c_string (strncpy n s) ≡ (if ltb (length s) n then some s else none)
unfolding c_string strncpy has_no_zero
c_string-strncpy zero s h = ground arith
c_string-strncpy (suc n) [] h = ground arith
c_string-strncpy (suc n) (c ∷ s) h = ground (arith, c_string-strncpy n s)

-- A device that is set has an index.
pub record HasIndex (cfg : Config) : Type 0 where
  pub dev_index : (cfg.ifname ≡ false) ⊎ (cfg.ifindex ≢ 0)
  pub redirect_index : (cfg.redirect_ifname ≡ false) ⊎ (cfg.redirect_ifindex ≢ 0)

module _ (if_nametoindex atoi : Bytes → ℕ) where
  apply-HasIndex :
      (opt : Choice) (optarg : Bytes) (cfg cfg' : Config)
      → HasIndex cfg
      → apply if_nametoindex atoi opt optarg cfg ≡ some cfg'
      → HasIndex cfg'
  unfolding apply set_dev set_redirect_dev
  apply-HasIndex opt optarg cfg cfg' w h = ground (arith, w)

  -- After the options, each device that is set has an index that is not zero, if it was so before.
  pub parse_cmdline_args-HasIndex :
      (args : List (Choice × Bytes)) (cfg cfg' : Config)
      → HasIndex cfg
      → parse_cmdline_args if_nametoindex atoi args cfg ≡ some cfg'
      → HasIndex cfg'
  unfolding parse_cmdline_args
  parse_cmdline_args-HasIndex [] cfg cfg' w h = ground (arith, w)
  parse_cmdline_args-HasIndex ((opt, optarg) ∷ args) cfg cfg' w h =
      elim (Option-cases (apply if_nametoindex atoi opt optarg cfg)) [
        | inl e ↦ absurd (ground arith)
        | inr (next, e) ↦
            parse_cmdline_args-HasIndex args next cfg' (apply-HasIndex opt optarg cfg next w e)
              (ground arith)
      ]

  -- Options in two parts have the effect of the first part and then that of the second; where
  -- either part exits, so does the whole.
  pub parse_cmdline_args-append :
      (a b : List (Choice × Bytes)) (cfg : Config)
      → parse_cmdline_args if_nametoindex atoi (a ++ b) cfg
        ≡ parse_cmdline_args if_nametoindex atoi a cfg >>= parse_cmdline_args if_nametoindex atoi b
  unfolding parse_cmdline_args
  parse_cmdline_args-append [] b cfg = refl
  parse_cmdline_args-append ((opt, optarg) ∷ a) b cfg =
      elim (Option-cases (apply if_nametoindex atoi opt optarg cfg)) [
        | inl e ↦ ground arith
        | inr (next, e) ↦ ground (arith, parse_cmdline_args-append a b next)
      ]
