-- ===== src/Names/Injective.antt =====
-- Names of services, as Kubernetes admits them, can be told apart. Names of Services and of
-- namespaces are DNS labels there, with no dot in them.
use semaphore_xds.Prelude.{String, ◌≡◌}
use semaphore_xds.Prelude.Decimal.{ℤ}
use semaphore_xds.Prelude.Decimal.Injective.{itoa-injective}
use semaphore_xds.Prelude.Text.{Free, dot_join_injective}
use semaphore_xds.Names.{store_key, make_cluster_name}

-- Two services with one store key have one name and one namespace, if their names have no dot.
pub store_key-injective :
    (a b x y : String) → Free "." a → Free "." b → store_key a x ≡ store_key b y → (a ≡ b) × (x ≡ y)
unfolding store_key
store_key-injective a b x y fa fb h = dot_join_injective a b x y fa fb h

-- Two ports with one cluster name are one port of one service, if names and namespaces have no dot.
pub make_cluster_name-injective :
    (a b x y : String) (p q : ℤ)
    → Free "." a
    → Free "." b
    → Free "." x
    → Free "." y
    → make_cluster_name a x p ≡ make_cluster_name b y q
    → (a ≡ b) × (x ≡ y) × (p ≡ q)
unfolding make_cluster_name
make_cluster_name-injective a b x y p q fa fb fx fy h =
    let (e, r) = dot_join_injective a b _ _ fa fb h in
    let (e', r') = dot_join_injective x y _ _ fx fy r in (e, e', itoa-injective p q r')
