-- ===== src/Frame/ReadHeader.antt =====
-- The header of a frame: what `Frame::pack` writes, `Frame::unpack` reads back.
use zigbee_rust_playground.Common.{
  ℕ, ◌<◌, ◌^◌, ◌≡◌, refl, arith, Option, none, some, true, bit_of, Bool-cases, inl, inr, is_some,
  not, List, [], ◌++◌, append_assoc, ok, ◌>>=◌, ◌==◌, if◌then◌else◌, to_le_bytes,
}
use zigbee_rust_playground.Pack.{unpack_uint, unpack_option}
use zigbee_rust_playground.Pack.RoundTrip.{unpack_uint-to_le_bytes}
use zigbee_rust_playground.Pack.Targets.{concat}
use zigbee_rust_playground.Frame.Types.{Address, FullAddress, PanId, AddressingMode}
use zigbee_rust_playground.Frame.Address.{
  mode_try_from_tag, address_tag, unpack_address_data, unpack_full_address_data, unpack_address,
}
use zigbee_rust_playground.Frame.Control.{address_mode_tag, uses_compression}
use zigbee_rust_playground.Frame.Codec.{pan_of}
use zigbee_rust_playground.Frame.Layout.{
  address_chunks, destination_chunks, source_chunks, sequence_chunks,
}
use zigbee_rust_playground.Frame.Valid.{IsAddress, IsFullAddress, IsSequenceNumber}

-- A number with its bytes in front, read at the head of longer input.
pub read_uint :
    (n x : ℕ) (front rest : List ℕ)
    → x < 256 ^ n
    → unpack_uint n ((to_le_bytes n x ++ front) ++ rest) ≡ ok (x, front ++ rest)
read_uint n x front rest h =
    rw (append_assoc (to_le_bytes n x) front rest) (unpack_uint-to_le_bytes n x (front ++ rest) h)

unpack_address_data-chunks :
    (a : Address) (rest : List ℕ)
    → IsAddress a
    → unpack_address_data (address_tag a) (concat (address_chunks a) ++ rest) ≡ ok (a, rest)
unfolding unpack_address_data address_tag address_chunks
unpack_address_data-chunks (Address.short a) rest h = rw (read_uint 2 a.value [] rest h)
unpack_address_data-chunks (Address.extended a) rest h = rw (read_uint 8 a.value [] rest h)

unpack_full-chunks :
    (a : FullAddress) (rest : List ℕ)
    → IsFullAddress (some a)
    → unpack_full_address_data
        (address_tag a.address)
        (concat (destination_chunks (some a)) ++ rest)
      ≡ ok (a, rest)
unfolding unpack_full_address_data destination_chunks
unpack_full-chunks a rest (h, h') = rw (
  read_uint 2 a.pan_id.value (concat (address_chunks a.address)) rest h,
  unpack_address_data-chunks a.address rest h',
)

-- The mode that the tag of an optional address stands for.
pub mode_of : Option FullAddress → AddressingMode
mode_of none = AddressingMode.none
mode_of (some a) = address_tag a.address

pub mode_try_from_tag-mode :
    (a : Option FullAddress) → mode_try_from_tag (address_mode_tag a) ≡ ok (mode_of a)
unfolding mode_try_from_tag address_mode_tag mode_of address_tag
mode_try_from_tag-mode none = refl
mode_try_from_tag-mode (some a) = ground arith

-- The address modes that are not `None` go on to the address.
unpack_address-full :
    (a : Address) (bytes : List ℕ)
    → unpack_address (address_tag a) none bytes
      ≡ (unpack_full_address_data (address_tag a) bytes >>= λ p. ok (some p.0, p.1))
unfolding unpack_address address_tag
unpack_address-full (Address.short a) bytes = refl
unpack_address-full (Address.extended a) bytes = refl

unpack_address-known :
    (a : Address) (pan_id : PanId) (bytes : List ℕ)
    → unpack_address (address_tag a) (some pan_id) bytes ≡ (
        unpack_address_data (address_tag a) bytes >>= λ p.
        ok (some (record { pan_id = pan_id; address = p.0 }), p.1))
unfolding unpack_address address_tag
unpack_address-known (Address.short a) pan_id bytes = refl
unpack_address-known (Address.extended a) pan_id bytes = refl

pub unpack_destination-chunks :
    (a : Option FullAddress) (rest : List ℕ)
    → IsFullAddress a
    → unpack_address (mode_of a) none (concat (destination_chunks a) ++ rest) ≡ ok (a, rest)
unfolding mode_of
unpack_destination-chunks none rest h = unfold unpack_address destination_chunks in refl
unpack_destination-chunks (some a) rest h =
    rw (unpack_address-full a.address, unpack_full-chunks a rest h)

-- PAN ids are compressed only if they are equal.
uses_compression-pan_of :
    (d : Option FullAddress) (a : FullAddress)
    → uses_compression d (some a) ≡ true
    → pan_of d ≡ some a.pan_id
unfolding uses_compression
uses_compression-pan_of none a h = cc
uses_compression-pan_of (some d) a h = ground arith

pub unpack_source-chunks :
    (d s : Option FullAddress) (rest : List ℕ)
    → IsFullAddress s
    → unpack_address
        (mode_of s)
        (if not (bit_of (uses_compression d s) == 0) then pan_of d else none)
        (concat (source_chunks (uses_compression d s) s) ++ rest)
      ≡ ok (s, rest)
unfolding mode_of source_chunks
unpack_source-chunks d none rest h = unfold unpack_address in refl
unpack_source-chunks d (some a) rest h = elim (Bool-cases (uses_compression d (some a))) [
  | inl same ↦ rw (
    same,
    uses_compression-pan_of d a same,
    unpack_address-known a.address,
    unpack_address_data-chunks a.address rest h.1,
  )
  | inr other ↦ rw (other, unpack_destination-chunks (some a) rest h)
]

pub unpack_sequence-chunks :
    (n : Option ℕ) (rest : List ℕ)
    → IsSequenceNumber n
    → unpack_option
        (unpack_uint 1)
        (bit_of (not (is_some n)) == 0)
        (concat (sequence_chunks n) ++ rest)
      ≡ ok (n, rest)
unfolding unpack_option sequence_chunks
unpack_sequence-chunks none rest h = refl
unpack_sequence-chunks (some n) rest h = rw (read_uint 1 n [] rest h)
