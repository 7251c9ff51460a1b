-- ===== src/Heap/View.antt =====
-- The abstract content of a heap, a finite map from keys to objects, and the invariant that ties
-- the map of items to the queue of keys.
use kube_queue.Base.{
  ite, fun_ext, text_dec, ℕ, ◌<◌, ◌≡◌, refl, inl, inr, Bool, true, false, Option, none, some,
  Option-cases, String, lookup, length, get_elem?, get_elem?-some, arith,
}
use kube_queue.Container.Order.{IsStrictWeak, IsHeap}
use kube_queue.Heap.{HeapItem, Data, len}

module _ {ℓ} {A : Type ℓ} where
  -- The object under a key.
  unfoldable pub view : Data A → String → Option A
  unfolding lookup
  view h k = elim (lookup k h.items) [ none ↦ none | some item ↦ some item.obj ]

  -- The index that the item under a key records.
  unfoldable pub index_of : Data A → String → Option ℕ
  unfolding lookup
  index_of h k = elim (lookup k h.items) [ none ↦ none | some item ↦ some item.index ]

  abbrev pub attach : String → Option A → Option (String × A)
  attach k none = none
  attach k (some o) = some (k, o)

  abbrev pub pick : (String → Option A) → Option String → Option (String × A)
  pick f none = none
  pick f (some k) = attach k (f k)

  -- The key at an index of the queue, with its object.
  unfoldable pub at : Data A → ℕ → Option (String × A)
  unfolding view
  at h i = pick (view h) (get_elem? h.queue i)

  -- "items in the map are in the queue and vice versa", each with its own index.
  pub record IsConsistent (h : Data A) : Type ℓ where
    pub listed : (i : ℕ) (k : String) → get_elem? h.queue i ≡ some k → index_of h k ≡ some i
    pub placed : (i : ℕ) (k : String) → index_of h k ≡ some i → get_elem? h.queue i ≡ some k

  -- The order on entries, by their objects, with nothing after every entry.
  abbrev pub lift : (A → A → Bool) → Option (String × A) → Option (String × A) → Bool
  lift lt (some x) (some y) = lt x.1 y.1
  lift lt (some x) none = true
  lift lt none _ = false

  pub lift-IsStrictWeak : {lt : A → A → Bool} → IsStrictWeak lt → IsStrictWeak (lift lt)
  lift-IsStrictWeak {lt} w = record { asym = asym; trans = trans }
    where
      asym : (x y : Option (String × A)) → lift lt x y ≡ true → lift lt y x ≡ false
      asym (some x) (some y) h = w.asym x.1 y.1 h
      asym (some x) none h = refl
      asym none (some y) h = ground arith
      asym none none h = refl

      trans :
          (x y z : Option (String × A))
          → lift lt y x ≡ false
          → lift lt z y ≡ false
          → lift lt z x ≡ false
      trans (some x) (some y) (some z) h k = w.trans x.1 y.1 z.1 h k
      trans (some x) none (some z) h k = ground arith
      trans none (some y) (some z) h k = ground arith
      trans none none (some z) h k = k
      trans x y none h k = refl

  -- The invariant of the heap: map and queue agree, and no object is before its parent.
  pub record IsWellFormed (lt : A → A → Bool) (h : Data A) : Type ℓ where
    pub consistent : IsConsistent h
    pub heap : IsHeap (lift lt) (len h) (at h)

  -- The finite map with an entry written, and with a key removed.
  abbrev pub written : String → A → (String → Option A) → String → Option A
  written k o f j = ite (text_dec k j) (some o) (f j)

  abbrev pub removed : String → (String → Option A) → String → Option A
  removed k f j = ite (text_dec k j) none (f j)

  -- To remove an absent key changes nothing.
  pub removed_absent : (h : Data A) (k : String) → view h k ≡ none → view h ≡ removed k (view h)
  removed_absent h k e = fun_ext λ j. ground arith

  pub lookup-view-none : (h : Data A) (k : String) → lookup k h.items ≡ none → view h k ≡ none
  unfolding view
  lookup-view-none h k e = rw (e, view)

  pub lookup-view-some :
      (h : Data A) (k : String) {item : HeapItem A}
      → lookup k h.items ≡ some item
      → view h k ≡ some item.obj
  unfolding view
  lookup-view-some h k e = rw (e, view)

  -- A key is present exactly when its item has an index.
  pub index_of-view :
      (h : Data A) (k : String) {o : A}
      → view h k ≡ some o
      → (item : HeapItem A) × (lookup k h.items ≡ some item)
        × (item.obj ≡ o)
        × (index_of h k ≡ some item.index)
  unfolding view index_of
  index_of-view h k e = elim (Option-cases (lookup k h.items)) [
    | inl absent ↦ absurd (ground arith)
    | inr (item, found) ↦ (item, found, ground arith, ground arith)
  ]

  -- Every index of the queue holds an object of the map.
  pub at-some :
      (h : Data A) (i : ℕ)
      → IsConsistent h
      → i < length h.queue
      → (k : String) × (item : HeapItem A) × (get_elem? h.queue i ≡ some k)
        × (lookup k h.items ≡ some item)
        × (item.index ≡ i)
        × (at h i ≡ some (k, item.obj))
  unfolding at view index_of
  at-some h i c p =
      let (k, e) = get_elem?-some h.queue i p in
      elim (Option-cases (lookup k h.items)) [
        | inl absent ↦ absurd (ground (arith, c.listed i k e))
        | inr (item, found) ↦ (k, item, e, found, ground (arith, c.listed i k e), ground arith)
      ]
