-- ===== src/Regions/Cache/Changing.antt =====
-- The thread-local cache over a sequence of addresses, with an answer of `VirtualQuery` of its own
-- for each of them: pages may be freed or protected between them, and nothing clears the cache.
use vd_trace.Base.{ℕ, ◌≡◌, refl, ◌∙◌, List, [], ◌∷◌, Option, ◌⊎◌, inl, inr, All}
use vd_trace.Session.{RegionCache, Impl, ExecutionAddressKind}
use vd_trace.Regions.{MemoryInformation, resolve_execution_address}
use vd_trace.Regions.Cache.{
  IsConsistent, IsSound, empty_cache, empty_cache-IsSound, resolve-EitherKeeps,
}

-- `VirtualQuery` at one time.
abbrev pub Memory : Type 0
Memory = ℕ → Option MemoryInformation

module _ (impl : Impl) where
  -- The kinds that a thread sees for a sequence of addresses, each at its own time.
  unfoldable pub resolve_all : RegionCache → List (Memory × ℕ) → List ExecutionAddressKind
  resolve_all cache [] = []
  resolve_all cache ((now, a) ∷ rest) =
      let r = resolve_execution_address now impl cache a in r.0.kind ∷ resolve_all r.1 rest

  abbrev pub kind_at : Memory → ℕ → ExecutionAddressKind
  kind_at memory address = (resolve_execution_address memory impl empty_cache address).0.kind

  -- The kind that the address has without a cache at one of the times.
  pub WasKind : List Memory → ℕ → ExecutionAddressKind → Type 0
  WasKind [] address kind = ⊥
  WasKind (m ∷ ms) address kind = (kind ≡ kind_at m address) ⊎ WasKind ms address kind

  -- One kind for each address, which it has at its own time or has had at one before it; `past`
  -- are the times before the sequence, the last one first.
  pub AllWereKinds : List Memory → List (Memory × ℕ) → List ExecutionAddressKind → Type 0
  unfolding WasKind
  AllWereKinds past [] [] = Unit
  AllWereKinds past ((now, a) ∷ rest) (k ∷ ks) =
      WasKind (now ∷ past) a k × AllWereKinds (now ∷ past) rest ks
  AllWereKinds past _ _ = ⊥

  -- Some memory of the past, or the next one, answers what the cache answers.
  abbrev Recalls : List Memory → RegionCache → Type 0
  Recalls past cache =
      (now : Memory)
      → (before : Memory) × ((a : ℕ) → WasKind (now ∷ past) a (kind_at before a))
        × IsSound before impl cache

  recall :
      (past : List Memory) (now before : Memory) (cache : RegionCache)
      → ((a : ℕ) → WasKind (now ∷ past) a (kind_at before a))
      → IsSound before impl cache ⊎ IsSound now impl cache
      → Recalls (now ∷ past) cache
  unfolding WasKind
  recall past now before cache was (inl s) next = (before, λ a. inr (was a), s)
  recall past now before cache was (inr s) next = (now, λ a. inr (inl refl), s)

  was_equal :
      (ms : List Memory) (a : ℕ) (k l : ExecutionAddressKind)
      → k ≡ l
      → WasKind ms a l
      → WasKind ms a k
  unfolding WasKind
  was_equal [] a k l e w = w
  was_equal (m ∷ ms) a k l e (inl h) = inl (e ∙ h)
  was_equal (m ∷ ms) a k l e (inr w) = inr (was_equal ms a k l e w)

  resolve_all-Recalls :
      (past : List Memory) (cache : RegionCache) (steps : List (Memory × ℕ))
      → All (λ s. IsConsistent s.0) steps
      → Recalls past cache
      → AllWereKinds past steps (resolve_all cache steps)
  unfolding resolve_all AllWereKinds WasKind
  resolve_all-Recalls past cache [] c r = tt
  resolve_all-Recalls past cache ((now, a) ∷ rest) c r =
      let (before, was, sound) = r now in
      let k = resolve-EitherKeeps before now impl c.0 cache sound a in
      let resolved = resolve_execution_address now impl cache a in
      (
        elim k.0 [
          | inl same ↦ was_equal (now ∷ past) a resolved.0.kind (kind_at before a) same.0 (was a)
          | inr same ↦ inl same.0
        ],
        resolve_all-Recalls (now ∷ past) resolved.1 rest c.1
            (recall past now before resolved.1 was k.1),
      )

  -- From an empty cache, and whatever happens to the memory between the addresses that a thread
  -- resolves one after the other, each of them is of the kind that it has without a cache, at its
  -- own time or at the time of an address before it. The hypothesis is that at each time the pages
  -- of one answer of `VirtualQuery` have the same attributes.
  pub resolve_all-WasKind :
      (steps : List (Memory × ℕ))
      → All (λ s. IsConsistent s.0) steps
      → AllWereKinds [] steps (resolve_all empty_cache steps)
  unfolding WasKind
  resolve_all-WasKind steps c =
      resolve_all-Recalls [] empty_cache steps c
        (λ now. (now, λ a. inl refl, empty_cache-IsSound now impl))
