-- ===== src/SlavePort/Extension.antt =====
-- src/sc_ext.cc: how the extension of a payload is made and copied. A constructor leaves the number
-- of the core without a value: `garbage` is what the memory held.
use gem5_wrapper.Prelude.{ℕ, ◌≡◌, ◌↔◌, ap}
use gem5_wrapper.SlavePort.State.{Gem5Extension}

unfoldable pub new_extension : (garbage packet : ℕ) → Gem5Extension
new_extension garbage packet = record { packet = packet; core_id = garbage }

unfoldable pub set_core_id : ℕ → Gem5Extension → Gem5Extension
set_core_id id e = record e { core_id = id }

unfoldable pub clone : (garbage : ℕ) → Gem5Extension → Gem5Extension
unfolding new_extension
clone garbage e = new_extension garbage e.packet

unfoldable pub copy_from : (source target : Gem5Extension) → Gem5Extension
copy_from source target = record target { packet = source.packet }

-- A clone is the extension only if the memory happened to hold the number of its core, and so is a
-- copy only over an extension of the same core.
pub clone_iff : (garbage : ℕ) (e : Gem5Extension) → (clone garbage e ≡ e) ↔ (garbage ≡ e.core_id)
unfolding clone new_extension
clone_iff garbage e = (
  λ same. ap (λ (x : Gem5Extension). x.core_id) same,
  λ same. ap (λ (id : ℕ). record { packet = e.packet; core_id = id }) same,
)

pub copy_from_iff :
    (source target : Gem5Extension)
    → (copy_from source target ≡ source) ↔ (target.core_id ≡ source.core_id)
unfolding copy_from
copy_from_iff source target = (
  λ same. ap (λ (x : Gem5Extension). x.core_id) same,
  λ same. ap (λ (id : ℕ). record { packet = source.packet; core_id = id }) same,
)
