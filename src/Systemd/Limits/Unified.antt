-- ===== src/Systemd/Limits/Unified.antt =====
-- The unified map of cgroups/systemd/v2.go and the fields of the resources: the same limit gives the
-- same properties.
use libcontainer.Prelude.{
  ℕ, ◌^◌, ◌-◌, ◌≤◌, ◌<◌, false, [], ◌∷◌, ◌++◌, ok, ◌≡◌, refl, ◌∙◌, ap, All, arith, bytes_eq,
}
use libcontainer.Prelude.Int.{ℤ, pos}
use libcontainer.Text.{Bytes, codes, is_space, fields_func, format_uint}
use libcontainer.Text.Decimal.{IsDigit, format-digits, format-ne-nil, parse-format}
use libcontainer.Text.Fields.{fields-word, fields-last}
use libcontainer.Text.Trim.{digits-Plain, trim_space-words, trim_space-word, parse_int-format}
use libcontainer.Systemd.{new_prop, number}
use libcontainer.Systemd.Cpuset.{BigInt}
use libcontainer.Systemd.Limits.{
  cpu_quota_properties, quota_of, period_of, unified_property, key_properties,
}

-- the value of cpu.max, as the kernel writes it
abbrev pub cpu_max_text : ℕ → ℕ → Bytes
cpu_max_text quota period = format_uint quota ++ (codes " " ++ format_uint period)

cpu_max-fields :
    (quota period : ℕ)
    → fields_func is_space (cpu_max_text quota period) ≡ format_uint quota ∷ format_uint period ∷ []
cpu_max-fields quota period =
    fields-word is_space (format_uint quota) b' ' (format_uint period) (digits-Plain quota)
      (format-ne-nil quota) refl
    ∙ ap (λ x. format_uint quota ∷ x)
        (fields-last is_space (format_uint period) (digits-Plain period) (format-ne-nil period))

-- Decimal text is not "max".
not_max : (s : Bytes) → All IsDigit s → bytes_eq s (codes "max") ≡ false
not_max [] h = refl
not_max (c ∷ s) h = ground (arith, h.0)

quota_of-format : (n : ℕ) → n < 2 ^ 63 → quota_of (format_uint n) ≡ ok (pos n)
quota_of-format n h = rw (not_max (format_uint n) (format-digits n), parse_int-format n h) refl

period_of-format : (n : ℕ) → n ≤ 2 ^ 64 - 1 → period_of (format_uint n) ≡ ok n
period_of-format n h = rw (period_of, parse-format 64 n h) refl

module _ {B : Type 0} (big : BigInt B) (version : ℤ) where
  -- The entry "cpu.max" of the unified map, with a quota and a period in decimal, gives the
  -- properties that addCpuQuota gives for the same quota and period, and an entry "memory.max" with
  -- a number gives MemoryMax with that number.
  pub unified_property-agrees :
      (quota period memory : ℕ)
      → quota < 2 ^ 63
      → period ≤ 2 ^ 64 - 1
      → memory ≤ 2 ^ 64 - 1
      → (unified_property big version (codes "cpu.max", cpu_max_text quota period)
          ≡ ok (cpu_quota_properties version (pos quota) period))
        × (unified_property big version (codes "memory.max", format_uint memory)
            ≡ ok (new_prop (codes "MemoryMax") (number memory) ∷ []))
  unfolding unified_property key_properties
  unified_property-agrees quota period memory hq hp hm = (
    rw
        (
          trim_space-words (format_uint quota) (codes " ") (format_uint period) (digits-Plain quota)
              (format-ne-nil quota) (digits-Plain period) (format-ne-nil period),
          cpu_max-fields quota period,
          quota_of-format quota hq,
          period_of-format period hp,
        )
        refl,
    rw
        (
          trim_space-word (format_uint memory) (digits-Plain memory) (format-ne-nil memory),
          not_max (format_uint memory) (format-digits memory),
          parse-format 64 memory hm,
        )
        refl,
  )
