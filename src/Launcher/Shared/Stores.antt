-- ===== src/Launcher/Shared/Stores.antt =====
-- The stores one by one: each writes its field of its row, and leaves every other field, the packet
-- counts among them, as it was.
use p4_ubpf_scripts.Common.{
  ℕ, ℤ, pos, negsuc, ◌+◌, ◌≤◌, ◌≡◌, ◌≢◌, ◌⊎◌, refl, ◌∙◌, subst, inl, inr, List, length, arith,
}
use p4_ubpf_scripts.Shm.{Memory, memcpy_in, memcpy_out}
use p4_ubpf_scripts.Launcher.Layout.{
  session_at, ovs_thread_id_at, p4runtime_id_at, packet_count_at, sizeof_packet_count,
}
use p4_ubpf_scripts.Shm.Laws.{memcpy_out-outside, memcpy_out-in}
use p4_ubpf_scripts.Agent.Frame.Laws.{read_back}
use p4_ubpf_scripts.Launcher.State.{PacketCount, Connection}
use p4_ubpf_scripts.Launcher.Shared.{
  int_bytes, store_ovs_thread_id, store_p4runtime_id, store_packet_count, IsStored,
}

length-int_bytes_8 : (id : ℤ) → length (int_bytes 8 id) ≡ 8
length-int_bytes_8 (pos k) = refl
length-int_bytes_8 (negsuc k) = refl

length-int_bytes_4 : (id : ℤ) → length (int_bytes 4 id) ≡ 4
length-int_bytes_4 (pos k) = refl
length-int_bytes_4 (negsuc k) = refl

-- A row whose bytes read the same is stored as before.
pub IsStored-same :
    (m m' : Memory) (i : ℕ) (c : Connection)
    → ((n at : ℕ)
        → session_at i ≤ at
        → at + n ≤ session_at (i + 1)
        → memcpy_out n at m' ≡ memcpy_out n at m)
    → IsStored m i c
    → IsStored m' i c
IsStored-same m m' i c same s = record {
  ovs_thread_id = same 8 (ovs_thread_id_at i) (omega arith) (omega arith) ∙ s.ovs_thread_id;
  p4runtime_id = same 4 (p4runtime_id_at i) (omega arith) (omega arith) ∙ s.p4runtime_id;
  iv = same 16 (packet_count_at i) (omega arith) (omega arith) ∙ s.iv;
  cipher_text = same 8 (packet_count_at i + 16) (omega arith) (omega arith) ∙ s.cipher_text;
  auth_tag = same 16 (packet_count_at i + 16 + 8) (omega arith) (omega arith) ∙ s.auth_tag;
}

-- A copy that does not meet the row leaves it.
pub IsStored-outside :
    (m : Memory) (i to : ℕ) (bytes : List ℕ) (c : Connection)
    → (to + length bytes ≤ session_at i) ⊎ (session_at (i + 1) ≤ to)
    → IsStored m i c
    → IsStored (memcpy_in to bytes m) i c
IsStored-outside m i to bytes c apart =
    IsStored-same m (memcpy_in to bytes m) i c
      (λ n at above below. memcpy_out-outside n at to bytes m (omega (arith, apart, above, below)))

-- A copy behind the identifier and before the packet count meets neither.
module _ (m : Memory) (i : ℕ) (id : ℤ) where
  abbrev written : Memory
  written = store_p4runtime_id i id m

  pub p4runtime_id-outside :
      (n at : ℕ)
      → (at + n ≤ p4runtime_id_at i) ⊎ (packet_count_at i ≤ at)
      → memcpy_out n at written ≡ memcpy_out n at m
  unfolding store_p4runtime_id
  p4runtime_id-outside n at apart =
      memcpy_out-outside n at (p4runtime_id_at i) (int_bytes 4 id) m
        (let size = length-int_bytes_4 id in omega (arith, size, apart))

  p4runtime_id-read : memcpy_out 4 (p4runtime_id_at i) written ≡ int_bytes 4 id
  unfolding store_p4runtime_id
  p4runtime_id-read =
      subst (λ n. memcpy_out n (p4runtime_id_at i) written ≡ int_bytes 4 id) (length-int_bytes_4 id)
        (memcpy_out-in (p4runtime_id_at i) (int_bytes 4 id) m)

  pub store_p4runtime_id-here :
      (c : Connection) → IsStored m i c → IsStored written i (record c { p4runtime_id = id })
  store_p4runtime_id-here c s = record {
    ovs_thread_id =
        p4runtime_id-outside 8 (ovs_thread_id_at i) (inl (omega arith)) ∙ s.ovs_thread_id;
    p4runtime_id = p4runtime_id-read;
    iv = p4runtime_id-outside 16 (packet_count_at i) (inr (omega arith)) ∙ s.iv;
    cipher_text =
        p4runtime_id-outside 8 (packet_count_at i + 16) (inr (omega arith)) ∙ s.cipher_text;
    auth_tag =
        p4runtime_id-outside 16 (packet_count_at i + 16 + 8) (inr (omega arith)) ∙ s.auth_tag;
  }

  pub store_p4runtime_id-there :
      (j : ℕ) (c : Connection) → i ≢ j → IsStored m j c → IsStored written j c
  unfolding store_p4runtime_id
  store_p4runtime_id-there j c apart =
      IsStored-outside m j (p4runtime_id_at i) (int_bytes 4 id) c
        (let size = length-int_bytes_4 id in omega (arith, size, apart))

-- The store of the other identifier.
module _ (m : Memory) (i : ℕ) where
  pub store_ovs_thread_id-here :
      (id : ℤ) (c : Connection)
      → IsStored m i c
      → IsStored (store_ovs_thread_id i id m) i (record c { ovs_thread_id = id })
  unfolding store_ovs_thread_id
  store_ovs_thread_id-here id c s =
      let size = length-int_bytes_8 id in
      let outside : (n at : ℕ)
          → p4runtime_id_at i ≤ at
          → memcpy_out n at (store_ovs_thread_id i id m) ≡ memcpy_out n at m =
        λ n at h.
          memcpy_out-outside n at (ovs_thread_id_at i) (int_bytes 8 id) m
            (inr (omega (arith, size, h))) in
      record {
        ovs_thread_id =
            subst
              (λ n. memcpy_out n (ovs_thread_id_at i) (store_ovs_thread_id i id m) ≡ int_bytes 8 id)
              size (memcpy_out-in (ovs_thread_id_at i) (int_bytes 8 id) m);
        p4runtime_id = outside 4 (p4runtime_id_at i) (omega arith) ∙ s.p4runtime_id;
        iv = outside 16 (packet_count_at i) (omega arith) ∙ s.iv;
        cipher_text = outside 8 (packet_count_at i + 16) (omega arith) ∙ s.cipher_text;
        auth_tag = outside 16 (packet_count_at i + 16 + 8) (omega arith) ∙ s.auth_tag;
      }

  pub store_ovs_thread_id-there :
      (id : ℤ) (j : ℕ) (c : Connection)
      → i ≢ j
      → IsStored m j c
      → IsStored (store_ovs_thread_id i id m) j c
  unfolding store_ovs_thread_id
  store_ovs_thread_id-there id j c apart =
      let size = length-int_bytes_8 id in
      IsStored-outside m j (ovs_thread_id_at i) (int_bytes 8 id) c (omega (arith, size, apart))

-- A copy within the packet count leaves the identifiers, and any part of the count that it does not meet.
module _ (m : Memory) (i : ℕ) (count : PacketCount) (iv_full : length count.iv ≡ 16)
    (text_full : length count.cipher_text ≡ 8) (tag_full : length count.auth_tag ≡ 16) where
  abbrev with_iv : Memory
  with_iv = memcpy_in (packet_count_at i) count.iv m

  abbrev with_text : Memory
  with_text = memcpy_in (packet_count_at i + 16) count.cipher_text with_iv

  store_packet_count-outside :
      (n at : ℕ)
      → (at + n ≤ packet_count_at i) ⊎ (packet_count_at i + sizeof_packet_count ≤ at)
      → memcpy_out n at (store_packet_count i count m) ≡ memcpy_out n at m
  unfolding store_packet_count
  store_packet_count-outside n at apart =
      memcpy_out-outside n at (packet_count_at i + 16 + 8) count.auth_tag with_text
        (omega (arith, tag_full, apart))
      ∙ memcpy_out-outside n at (packet_count_at i + 16) count.cipher_text with_iv
          (omega (arith, text_full, apart))
      ∙ memcpy_out-outside n at (packet_count_at i) count.iv m (omega (arith, iv_full, apart))

  pub store_packet_count-here :
      (c : Connection)
      → IsStored m i c
      → IsStored (store_packet_count i count m) i (record c { packet_count = count })
  unfolding store_packet_count
  store_packet_count-here c s = record {
    ovs_thread_id =
        store_packet_count-outside 8 (ovs_thread_id_at i) (inl (omega arith)) ∙ s.ovs_thread_id;
    p4runtime_id =
        store_packet_count-outside 4 (p4runtime_id_at i) (inl (omega arith)) ∙ s.p4runtime_id;
    iv =
        memcpy_out-outside 16 (packet_count_at i) (packet_count_at i + 16 + 8) count.auth_tag
          with_text (inl (omega arith))
        ∙ memcpy_out-outside 16 (packet_count_at i) (packet_count_at i + 16) count.cipher_text
            with_iv (inl (omega arith))
        ∙ read_back 16 (packet_count_at i) count.iv m iv_full;
    cipher_text =
        memcpy_out-outside 8 (packet_count_at i + 16) (packet_count_at i + 16 + 8) count.auth_tag
          with_text (inl (omega arith))
        ∙ read_back 8 (packet_count_at i + 16) count.cipher_text with_iv text_full;
    auth_tag = read_back 16 (packet_count_at i + 16 + 8) count.auth_tag with_text tag_full;
  }

  pub store_packet_count-there :
      (j : ℕ) (c : Connection)
      → i ≢ j
      → IsStored m j c
      → IsStored (store_packet_count i count m) j c
  store_packet_count-there j c apart =
      IsStored-same m (store_packet_count i count m) j c
        (λ n at above below. store_packet_count-outside n at (omega (arith, apart, above, below)))
