-- ===== src/Fw/Dispatch.antt =====
-- Which thread a name goes to: `HashNameToFwThread` and `HashNameToAllPrefixFwThreads` of
-- ndnd/fw/fw/thread.go, with `n` threads. The hash of a prefix stands for an element of `PrefixHash`.
use ndn_bier.Prelude.{
  ℕ, zero, suc, ◌%◌, ◌≡◌, ◌<◌, refl, ◌∙◌, Bool, true, false, List, [], ◌∷◌, length, take, get_or,
  set, replicate, length-replicate, length-set, get_or-set_self, get_or-set_ne, get_or-append_zeros,
  ◌==◌, ==_iff, if◌then◌else◌, arith, Bool-cases, inl, inr,
}
use native.Mathlib.Nat.{mod-lt}
use ndn_bier.Encoding.Name.{Name}
use ndn_bier.Fw.Outgoing.{is_localhost}

get_or-set :
    (threads : List Bool) (j t : ℕ)
    → j < length threads
    → get_or (set threads j true) t false ≡ (if j == t then true else get_or threads t false)
get_or-set threads j t h = elim (Bool-cases (j == t)) [
  | inl e ↦ rw (e, ← (==_iff j t).0 e) (get_or-set_self threads j true false h)
  | inr e ↦ rw e (get_or-set_ne threads j t true false (ground arith))
]

module _ (hash : Name → ℕ) (n : ℕ) where
  unfoldable pub hash_name_to_fw_thread : Name → ℕ
  unfolding is_localhost
  hash_name_to_fw_thread name = if is_localhost name then 0 else hash name % n

  -- The rounds for the prefixes of 1 to `i` components.
  unfoldable pub prefix_rounds : Name → ℕ → List Bool → List Bool
  prefix_rounds name zero threads = threads
  prefix_rounds name (suc i) threads =
      set (prefix_rounds name i threads) (hash (take (suc i) name) % n) true

  unfoldable pub hash_name_to_all_prefix_fw_threads : Name → List Bool
  unfolding is_localhost prefix_rounds
  hash_name_to_all_prefix_fw_threads name =
      if is_localhost name
      then set (replicate n false) 0 true
      else prefix_rounds name (length name) (replicate n false)

  length-prefix_rounds :
      (name : Name) (i : ℕ) (threads : List Bool)
      → length (prefix_rounds name i threads) ≡ length threads
  unfolding prefix_rounds
  length-prefix_rounds name zero threads = refl
  length-prefix_rounds name (suc i) threads =
      length-set (prefix_rounds name i threads) (hash (take (suc i) name) % n) true
      ∙ length-prefix_rounds name i threads

  -- The prefixes of 1 to `i` components, one of which goes to the thread.
  unfoldable pub some_prefix_goes : Name → ℕ → ℕ → Bool
  some_prefix_goes name zero t = false
  some_prefix_goes name (suc i) t =
      if hash_name_to_fw_thread (take (suc i) name) == t then true else some_prefix_goes name i t

  -- A prefix of at least one component is under /localhost when the whole name is.
  is_localhost-take : (name : Name) (i : ℕ) → is_localhost (take (suc i) name) ≡ is_localhost name
  unfolding is_localhost
  is_localhost-take [] i = refl
  is_localhost-take (c ∷ rest) i = refl

  some_prefix-localhost :
      (name : Name) (i t : ℕ)
      → is_localhost name ≡ true
      → some_prefix_goes name (suc i) t ≡ (if 0 == t then true else false)
  unfolding some_prefix_goes hash_name_to_fw_thread
  some_prefix-localhost name zero t h = rw (is_localhost-take name 0, h) refl
  some_prefix-localhost name (suc i) t h =
      rw (is_localhost-take name (suc i), h, some_prefix-localhost name i t h) (ground arith)

  module _ (positive : 0 < n) where
    get_or-prefix_rounds :
        (name : Name) (i t : ℕ)
        → is_localhost name ≡ false
        → get_or (prefix_rounds name i (replicate n false)) t false ≡ some_prefix_goes name i t
    unfolding prefix_rounds some_prefix_goes hash_name_to_fw_thread
    get_or-prefix_rounds name zero t h = get_or-append_zeros [] n t false
    get_or-prefix_rounds name (suc i) t h =
        let j = hash (take (suc i) name) % n in
        let inside : j < length (prefix_rounds name i (replicate n false)) =
          rw (length-prefix_rounds name i (replicate n false), length-replicate n false)
            (mod-lt (hash (take (suc i) name)) positive) in
        get_or-set (prefix_rounds name i (replicate n false)) j t inside
        ∙ rw (is_localhost-take name i, h, get_or-prefix_rounds name i t h) refl

    localhost_nonempty :
        (name : Name) (t : ℕ)
        → is_localhost name ≡ true
        → some_prefix_goes name (length name) t ≡ (if 0 == t then true else false)
    localhost_nonempty [] t h = absurd (unfold is_localhost in ground (arith, h))
    localhost_nonempty (c ∷ rest) t h = some_prefix-localhost (c ∷ rest) (length rest) t h

    -- With at least one thread, the threads that Data of a name goes to are exactly those that Interests
    -- of the prefixes of the name with one component or more go to.
    pub all_prefix_threads-prefixes :
        (name : Name) (t : ℕ)
        → get_or (hash_name_to_all_prefix_fw_threads name) t false
          ≡ some_prefix_goes name (length name) t
    unfolding hash_name_to_all_prefix_fw_threads
    all_prefix_threads-prefixes name t = elim (Bool-cases (is_localhost name)) [
      | inl local ↦
          rw (local, localhost_nonempty name t local)
            (get_or-set (replicate n false) 0 t (rw (length-replicate n false) positive)
              ∙ rw (get_or-append_zeros [] n t false) refl)
      | inr other ↦ rw other (get_or-prefix_rounds name (length name) t other)
    ]
