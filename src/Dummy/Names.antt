-- ===== src/Dummy/Names.antt =====
-- In the localhost mode a route goes to the cluster of its service and port.
use Prim.Native.Char.{Char}
use Prim.Native.String.{◌++◌}
use text.Mathlib.TextLemmas.{append_assoc, cons-append, nil-append}
use semaphore_xds.Prelude.{String, ◌≡◌, ◌∙◌, refl, sym, ap, false, arith}
use semaphore_xds.Prelude.Decimal.{ℤ, itoa}
use semaphore_xds.Prelude.Text.{Free-append, char_differs, Free, dot-append}
use semaphore_xds.Names.{
  has_char, join_host_port, make_listener_name, make_cluster_name, make_global_service_domain,
}
use semaphore_xds.Dummy.{replace_first}

has_char-Free : (c : Char) (s : String) → Free c s → has_char c s ≡ false
unfolding has_char
has_char-Free c String.[] h = refl
has_char-Free c (String.◌∷◌ d s) h =
    rw (char_differs d c (λ e. h.0 (sym e))) (has_char-Free c s h.1)

replace_first-append :
    (old new : Char) (s t : String)
    → Free old s
    → replace_first old new (s ++ String.◌∷◌ old t) ≡ s ++ String.◌∷◌ new t
unfolding replace_first
replace_first-append old new String.[] t f = rw (nil-append, nil-append) (ground arith)
replace_first-append old new (String.◌∷◌ d s) t f =
    rw (cons-append, cons-append, replace_first, char_differs old d f.0)
      (ap (String.◌∷◌ d) (replace_first-append old new s t f.1))

-- For a service whose name and namespace hold no colon, the requested listener's name, with its
-- first colon replaced by a dot, is the name of the cluster for the service and port.
pub replace_first-make_listener_name :
    (name namespace : String) (port : ℤ)
    → Free ":" name
    → Free ":" namespace
    → replace_first ":" "." (make_listener_name name namespace port)
      ≡ make_cluster_name name namespace port
unfolding make_listener_name make_cluster_name make_global_service_domain join_host_port
replace_first-make_listener_name name namespace port fn fs =
    let host : String = name ++ "." ++ namespace in
    let f : Free ":" host =
      Free-append ":" name _ fn (Free-append ":" "." namespace ((λ e. cc), tt) fs) in
    rw (has_char-Free ":" host f) (
      rw (cons-append ":" "" (itoa port), nil-append)
        (replace_first-append ":" "." host (itoa port) f
          ∙ rw (← dot-append (itoa port))
              (append_assoc name _ _ ∙ ap (λ r. name ++ r) (append_assoc "." namespace _))))
