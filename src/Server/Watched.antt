-- ===== src/Server/Watched.antt =====
-- The set of descriptors that the server hands to select.
use os_bmstu.Common.{
  occurs, ℕ, ◌≡◌, ◌≤◌, ◌∙◌, ◌<◌, ◌⊎◌, Bool, true, false, Bool-cases, List, [], ◌∷◌, ◌==◌, ◌||◌,
  update, arith, inl, inr, ltb,
}
use os_bmstu.Server.{Server, watch, watched, max}

-- No member of the set is above the number.
abbrev Bounded : (ℕ → Bool) × ℕ → Type 0
Bounded (sock_set, max_sock) = (fd : ℕ) → sock_set fd ≡ true → fd ≤ max_sock

watch-Bounded :
    (fds : List ℕ) (sock_set : ℕ → Bool) (max_sock : ℕ)
    → Bounded (sock_set, max_sock)
    → Bounded (watch fds sock_set max_sock)
unfolding watch
watch-Bounded [] sock_set max_sock below = below
watch-Bounded (x ∷ xs) sock_set max_sock below = elim (Bool-cases (x == 0)) [
  | inl free ↦ rw (free, watch) (watch-Bounded xs sock_set max_sock below)
  | inr used ↦
      rw (used, watch)
        (watch-Bounded xs (update sock_set x true) (max max_sock x)
          (λ fd e. ground (arith, below fd)))
]

watch-member :
    (fds : List ℕ) (sock_set : ℕ → Bool) (max_sock fd : ℕ)
    → 0 < fd
    → (watch fds sock_set max_sock).0 fd ≡ (sock_set fd || ltb 0 (occurs fd fds))
unfolding watch occurs
watch-member [] sock_set max_sock fd pos = ground arith
watch-member (x ∷ xs) sock_set max_sock fd pos = elim (Bool-cases (x == 0)) [
  | inl free ↦ rw (free, watch) (ground (arith, watch-member xs sock_set max_sock fd pos))
  | inr used ↦
      rw (used, watch)
        (ground (arith, watch-member xs (update sock_set x true) (max max_sock x) fd pos))
]

-- In every round the set that select gets holds a descriptor other than 0 exactly if that is the
-- listening socket or in the table, and max_sock is no less than any such descriptor in the set, so
-- that the first argument of select covers it.
pub watched-covers :
    (s : Server) (fd : ℕ)
    → 0 < fd
    → ((watched s).0 fd ≡ (fd == s.sock || ltb 0 (occurs fd s.client_sock)))
      × (((watched s).0 fd ≡ false) ⊎ (fd ≤ (watched s).1))
unfolding watched
watched-covers s fd pos = (
  watch-member s.client_sock (update (λ k. false) s.sock true) s.sock fd pos ∙ ground arith,
  elim (Bool-cases ((watched s).0 fd)) [
    | inr out ↦ inl out
    | inl member ↦ inr (
        watch-Bounded s.client_sock (update (λ k. false) s.sock true) s.sock (λ k e. ground arith)
          fd member)
  ],
)
