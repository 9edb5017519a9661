-- ===== src/World/Handles.antt =====
-- A handle carries its index and its generation, of 32 bits each.
use hwarangdo.Prelude.{ℕ, ◌*◌, ◌<◌, ◌≡◌, arith}
use hwarangdo.World.{two32, handle_index, handle_generation, make_handle}

-- The handle of an index and a generation, both below 2^32, yields both of them back.
pub handle_parts :
    (i g : ℕ)
    → i < two32
    → g < two32
    → (handle_index (make_handle i g) ≡ i) × (handle_generation (make_handle i g) ≡ g)
unfolding handle_index handle_generation make_handle
handle_parts i g hi hg = omega arith

-- A handle of 64 bits is the handle of its own parts.
pub handle-make :
    (h : ℕ) → h < two32 * two32 → make_handle (handle_index h) (handle_generation h) ≡ h
unfolding handle_index handle_generation make_handle
handle-make h b = omega arith
