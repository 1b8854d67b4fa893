-- ===== src/Tests/Messages.antt =====
-- The theorems on signed messages at concrete inputs.
use dn42_autopeer.Base.{ℕ, zero, suc, ◌≡◌, ◌≢◌, refl, Option, none, some}
use dn42_autopeer.Base.Int.{pos}
use dn42_autopeer.Base.Text.{Text, text, IsLine}
use dn42_autopeer.Challenge.{
  build_create_message, build_update_message, build_delete_message, create_endpoint,
  link_local_message, update_endpoint,
}
use dn42_autopeer.Challenge.Binding.{
  AreLines, build_create_message-binds, build_update_message-binds, build_delete_message-binds,
  messages-differ,
}
use dn42_autopeer.Tests.Fixtures.{peer, key, letters, link_local, stored_nonce, other_nonce}

created-AreLines : AreLines peer.peer_name key (create_endpoint none) stored_nonce
unfolding text create_endpoint
created-AreLines = record {
  name_line = (refl, (refl, (refl, tt)));
  key_line = letters-IsLine 44;
  endpoint_line = (refl, (refl, (refl, (refl, tt))));
  nonce_line = (refl, (refl, tt));
}
  where
    letters-IsLine : (n : ℕ) → IsLine (letters n)
    letters-IsLine zero = tt
    letters-IsLine (suc n) = (refl, letters-IsLine n)

updated-AreLines : AreLines peer.peer_name key (update_endpoint (some none)) stored_nonce
unfolding text update_endpoint
updated-AreLines = record {
  name_line = created-AreLines.name_line;
  key_line = created-AreLines.key_line;
  endpoint_line = (refl, (refl, (refl, (refl, (refl, tt)))));
  nonce_line = created-AreLines.nonce_line;
}

build_create_message-binds_example :
    ◌≡◌ {A = ℕ} 1 1
    × (peer.peer_name ≡ peer.peer_name)
    × (key ≡ key)
    × (create_endpoint none ≡ create_endpoint none)
    × (link_local_message (some (link_local 1, link_local 2))
        ≡ link_local_message (some (link_local 1, link_local 2)))
    × (◌≡◌ {A = Option ℕ} (some 1420) (some 1420))
    × (stored_nonce ≡ stored_nonce)
    × (pos 400 ≡ pos 400)
build_create_message-binds_example =
    build_create_message-binds 1 1 peer.peer_name peer.peer_name key key none none
      (some (link_local 1, link_local 2)) (some (link_local 1, link_local 2)) (some 1420)
      (some 1420) stored_nonce stored_nonce (pos 400) (pos 400) created-AreLines created-AreLines
      refl

build_update_message-binds_example :
    ◌≡◌ {A = ℕ} 1 1
    × (peer.peer_name ≡ peer.peer_name)
    × (key ≡ key)
    × (◌≡◌ {A = Option (Option Text)} (some none) (some none))
    × (link_local_message none ≡ link_local_message none)
    × (◌≡◌ {A = Option (Option ℕ)} (some (some 1420)) (some (some 1420)))
    × (stored_nonce ≡ stored_nonce)
    × (pos 400 ≡ pos 400)
build_update_message-binds_example =
    build_update_message-binds 1 1 peer.peer_name peer.peer_name key key (some none) (some none)
      none none (some (some 1420)) (some (some 1420)) stored_nonce stored_nonce (pos 400) (pos 400)
      updated-AreLines updated-AreLines refl

build_delete_message-binds_example :
    ◌≡◌ {A = ℕ} 1 1
    × (peer.peer_name ≡ peer.peer_name)
    × (stored_nonce ≡ stored_nonce)
    × (pos 400 ≡ pos 400)
build_delete_message-binds_example =
    build_delete_message-binds 1 1 peer.peer_name peer.peer_name stored_nonce stored_nonce (pos 400)
      (pos 400) created-AreLines.name_line created-AreLines.name_line created-AreLines.nonce_line
      created-AreLines.nonce_line refl

messages-differ_example :
    (build_create_message 1 stored_nonce key none none none stored_nonce (pos 400)
      ≢ build_update_message 2 other_nonce key none none none other_nonce (pos 500))
    × (build_create_message 1 stored_nonce key none none none stored_nonce (pos 400)
        ≢ build_delete_message 2 other_nonce other_nonce (pos 500))
    × (build_update_message 1 stored_nonce key none none none stored_nonce (pos 400)
        ≢ build_delete_message 2 other_nonce other_nonce (pos 500))
messages-differ_example =
    messages-differ 1 2 stored_nonce other_nonce key key none none none none none none stored_nonce
      other_nonce (pos 400) (pos 500)
