-- ===== src/Endpoint/Store.antt =====
-- The endpoint store: what Add puts in is what Get gives back.
use semaphore_xds.Prelude.{
  ℕ, String, ◌≡◌, refl, [], ◌∷◌, ◌++◌, Option-cases, inl, inr, string_eq, beq_of_ne,
}
use semaphore_xds.Prelude.GoMap.{lookup, lookup-insert, lookup-insert_self}
use semaphore_xds.Prelude.Text.{Free}
use semaphore_xds.Names.{store_key}
use semaphore_xds.Names.Injective.{store_key-injective}
use semaphore_xds.Endpoint.{EndpointSlice, XdsEndpointStore, add, get}

-- After Add, Get gives the slices that were there before with the new one and its priority last.
get-add_self :
    (service namespace : String) (e : EndpointSlice) (priority : ℕ) (store : XdsEndpointStore)
    → (get service namespace (add service namespace e priority store)).endpoint_slices
      ≡ (get service namespace store).endpoint_slices
        ++ record { endpoint_slice = e; priority = priority } ∷ []
unfolding get add
get-add_self service namespace e priority store =
    elim (Option-cases (lookup (store_key service namespace) store)) [
      | inl m ↦ rw (m, add, get, lookup-insert_self) refl
      | inr (se, m) ↦ rw (m, add, get, lookup-insert_self) refl
    ]

-- Add leaves alone every service of another name or namespace, if names have no dot.
get-add_ne :
    (service namespace : String) (e : EndpointSlice) (priority : ℕ) (store : XdsEndpointStore)
    (name space : String)
    → Free "." service
    → Free "." name
    → ¬ ((service ≡ name) × (namespace ≡ space))
    → get name space (add service namespace e priority store) ≡ get name space store
unfolding get add
get-add_ne service namespace e priority store name space fa fb h =
    let differ =
      beq_of_ne (store_key service namespace) (store_key name space)
        (λ q. h (store_key-injective service name namespace space fa fb q)) in
    elim (Option-cases (lookup (store_key service namespace) store)) [
      | inl m ↦ rw (m, add, get, lookup-insert, differ) refl
      | inr (se, m) ↦ rw (m, add, get, lookup-insert, differ) refl
    ]
