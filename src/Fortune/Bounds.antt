-- ===== src/Fortune/Bounds.antt =====
-- Which writes the fortune module of lab4_2 refuses, and which of the others leave its page.
use mathlib.Core.Option
use os_bmstu.Common.{
  ℕ, ◌+◌, ◌-◌, ◌%◌, ◌≤◌, ◌<◌, ◌^◌, ◌≡◌, refl, none, some, List, length, arith, Option-cases, inl,
  inr, ltb, false,
}
use os_bmstu.Memory.{write_at, poke_before, strcat}
use os_bmstu.Memory.Laws.{write_at-length, poke_before-length, strcat-length, poke_before-none}
use os_bmstu.Memory.UserCopy.{CopyFromUser}
use os_bmstu.Fortune.{Module, fortune_write, finish_write, efault, add_str, underscore, free_space}

-- Within a page of fewer than 2 ^ 31 - 1 bytes the conversions of `free_space` change nothing.
free_space-eq : (page i : ℕ) → page + 1 < 2 ^ 31 → i ≤ page → free_space page i ≡ page - i + 1
free_space-eq page i small inside = ground arith

-- The guard lets through what fits into the rest of the page.
pub guard_passes :
    (page i len : ℕ)
    → page + 1 < 2 ^ 31
    → i + len ≤ page
    → ltb (free_space page i) ((len + 1) % 2 ^ 64) ≡ false
guard_passes page i len small fits = rw (free_space-eq page i small (omega arith)) (ground arith)

-- A write of more bytes than the page has left is refused with -EFAULT and changes nothing.
pub fortune_write-refused :
    (page : ℕ) (copy : CopyFromUser) (buff : List ℕ) (m : Module)
    → page + 1 < 2 ^ 31
    → m.cookie_index ≤ page
    → page < m.cookie_index + length buff
    → length buff < 2 ^ 63
    → fortune_write page copy buff m ≡ some (efault, m)
unfolding fortune_write
fortune_write-refused page copy buff m small inside over sane =
    ground (arith, free_space-eq page m.cookie_index small inside)

-- The last line of `fortune_write` stores behind a page that is too short.
finish_write-none :
    (len : ℕ) (m : Module)
    → length m.cookie_pot < m.cookie_index + len + 7
    → m.cookie_index + len + 7 < 2 ^ 32
    → finish_write len m ≡ none
unfolding Option.bind
finish_write-none len m over small = elim (Option-cases (poke_before pot first underscore)) [
  | inl fault ↦ rw fault refl
  | inr (marked, e) ↦ elim (Option-cases (strcat marked add_str)) [
    | inl fault ↦ rw (e, fault) refl
    | inr (extended, e') ↦
        rw
          (
            e,
            e',
            poke_before-none extended second 0 (
                omega (
                  arith,
                  poke_before-length pot first underscore e,
                  strcat-length marked add_str e',
                )),
          )
          refl
  ]
]
  where
    pot : List ℕ
    pot = m.cookie_pot

    first : ℕ
    first = (m.cookie_index + len) % 2 ^ 32

    second : ℕ
    second = (first + 7) % 2 ^ 32

-- The guard leaves out the seven bytes of the suffix: a write that fits into the rest of the page,
-- but not with seven bytes more, stores outside the page.
pub fortune_write-overflows :
    (page : ℕ) (copy : CopyFromUser) (buff : List ℕ) (m : Module)
    → page + 1 < 2 ^ 31
    → length m.cookie_pot ≡ page
    → m.cookie_index + length buff ≤ page
    → page < m.cookie_index + length buff + 7
    → copy buff ≡ (buff, 0)
    → fortune_write page copy buff m ≡ none
unfolding fortune_write Option.bind
fortune_write-overflows page copy buff m small whole fits over copied =
    elim (Option-cases (write_at m.cookie_pot m.cookie_index buff)) [
      | inl fault ↦
          rw (guard_passes page m.cookie_index (length buff) small fits, copied, fault) refl
      | inr (pot, e) ↦
          rw
            (
              guard_passes page m.cookie_index (length buff) small fits,
              copied,
              e,
              finish_write-none (length buff) (record m { cookie_pot = pot })
                  (omega (arith, write_at-length m.cookie_pot m.cookie_index buff e)) (omega arith),
            )
            refl
    ]
