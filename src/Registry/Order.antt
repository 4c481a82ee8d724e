-- ===== src/Registry/Order.antt =====
-- The order in which files arrive.
use c_interface_discovery.Prelude.{Text, ◌≡◌, ◌≢◌, arith, ===_iff}
use c_interface_discovery.Types.{FileZone, string, LoadedFile}
use c_interface_discovery.Registry.{FileRegistry, add_in, add_file}
use c_interface_discovery.Registry.Lookup.{at, at-add_in}

at-add_in-add_in :
    (w x : FileZone) (f g : LoadedFile) (r : FileRegistry) (h : Text) (z : FileZone)
    → (f.filename ≡ g.filename → w ≢ x)
    → at (add_in w f (add_in x g r)) h z ≡ at (add_in x g (add_in w f r)) h z
at-add_in-add_in string string f g r h string apart = simp at-add_in (
    ground (
      arith,
      ===_iff f.filename h,
      ===_iff g.filename h,
      ===_iff f.filename g.filename,
      ===_iff g.filename f.filename,
    ))
at-add_in-add_in w x f g r h z apart = simp at-add_in (
    ground (
      arith,
      ===_iff f.filename h,
      ===_iff g.filename h,
      ===_iff f.filename g.filename,
      ===_iff g.filename f.filename,
    ))

-- Two files that differ in name or zone may be added in either order: under every name and zone the
-- registry then stores the same entry, with the same shadowing.
pub add_file_comm :
    (f g : LoadedFile) (r : FileRegistry) (h : Text) (z : FileZone)
    → (f.filename ≡ g.filename → f.zone ≢ g.zone)
    → at (add_file f (add_file g r)) h z ≡ at (add_file g (add_file f r)) h z
unfolding add_file
add_file_comm f g r h z apart = at-add_in-add_in f.zone g.zone f g r h z apart
