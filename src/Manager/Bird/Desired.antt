-- ===== src/Manager/Bird/Desired.antt =====
-- src/manager.rs: the files that are desired have different names, none of which begins with a dot.
use dn42_autopeer.Base.{
  ℕ, ◌≡◌, refl, sym, subst, List, [], ◌∷◌, ◌++◌, true, false, arith, inl, inr, ◌==◌, nat_eq,
  text_eq, Bool-cases, list_beq,
}
use dn42_autopeer.Base.Text.{Text, text}
use dn42_autopeer.Result.{ok}
use dn42_autopeer.Peer.{Peer}
use dn42_autopeer.Persist.{text_lt}
use dn42_autopeer.Manager.State.{PeerManager, iface_of}
use dn42_autopeer.Manager.Bird.Files.{Files, insert_file}
use dn42_autopeer.Manager.Bird.Sync.{desired_files, render_peer_config}
use dn42_autopeer.Manager.Bird.Directory.{NoFile}
use dn42_autopeer.Manager.Bird.Write.{IsShown, AreShown, AreDistinct}

-- The order of texts is one of a list.
text_lt_irrefl : (s : Text) → text_lt s s ≡ false
unfolding text_lt
text_lt_irrefl [] = refl
text_lt_irrefl (c ∷ s) = ground (arith, text_lt_irrefl s)

text_lt_trans : (a b c : Text) → text_lt a b ≡ true → text_lt b c ≡ true → text_lt a c ≡ true
unfolding text_lt
text_lt_trans [] [] c h k = ground (arith, h)
text_lt_trans [] (y ∷ b) [] h k = ground (arith, k)
text_lt_trans [] (y ∷ b) (z ∷ c) h k = refl
text_lt_trans (x ∷ a) [] c h k = ground (arith, h)
text_lt_trans (x ∷ a) (y ∷ b) [] h k = ground (arith, k)
text_lt_trans (x ∷ a) (y ∷ b) (z ∷ c) h k = ground (arith, h, k, text_lt_trans a b c)

text_lt_total : (a b : Text) → (a == b) ≡ false → text_lt a b ≡ false → text_lt b a ≡ true
unfolding text_lt list_beq
text_lt_total [] [] h k = ground (arith, h)
text_lt_total [] (y ∷ b) h k = ground (arith, k)
text_lt_total (x ∷ a) [] h k = refl
text_lt_total (x ∷ a) (y ∷ b) h k = ground (arith, h, k, text_lt_total a b)

-- The name comes before those of the files, and each name before those behind it.
AllBehind : Text → Files → Type 0
AllBehind n [] = Unit
AllBehind n (f ∷ files) = (text_lt n f.0 ≡ true) × AllBehind n files

Ascending : Files → Type 0
Ascending [] = Unit
Ascending (f ∷ files) = AllBehind f.0 files × Ascending files

AllBehind-text_lt :
    (m n : Text) (files : Files) → text_lt m n ≡ true → AllBehind n files → AllBehind m files
unfolding AllBehind
AllBehind-text_lt m n [] h k = tt
AllBehind-text_lt m n (f ∷ files) h k =
    (text_lt_trans m n f.0 h k.0, AllBehind-text_lt m n files h k.1)

insert_file-AllBehind :
    (m name content : Text) (files : Files)
    → text_lt m name ≡ true
    → AllBehind m files
    → AllBehind m (insert_file name content files)
unfolding AllBehind insert_file
insert_file-AllBehind m name content [] h k = (h, tt)
insert_file-AllBehind m name content ((n, c) ∷ files) h k =
    ground (arith, h, k.0, k.1, insert_file-AllBehind m name content files h k.1)

insert_file-Ascending :
    (name content : Text) (files : Files)
    → Ascending files
    → Ascending (insert_file name content files)
unfolding Ascending AllBehind insert_file
insert_file-Ascending name content [] h = (tt, tt)
insert_file-Ascending name content ((n, c) ∷ files) h = elim (Bool-cases (name == n)) [
  | inl e ↦
      let first : AllBehind name files =
        subst (λ m. AllBehind m files) (sym ((text_eq.beq_iff name n).0 e)) h.0 in
      ground (arith, e, first, h.1)
  | inr e ↦ elim (Bool-cases (text_lt name n)) [
    | inl f ↦ ground (arith, e, f, AllBehind-text_lt name n files f h.0, h.0, h.1)
    | inr f ↦
        let behind = insert_file-AllBehind n name content files (text_lt_total name n e f) h.0 in
        ground (arith, e, f, behind, insert_file-Ascending name content files h.1)
  ]
]

insert_file-AreShown :
    (name content : Text) (files : Files)
    → IsShown name
    → AreShown files
    → AreShown (insert_file name content files)
unfolding insert_file
insert_file-AreShown name content [] s h = (s, tt)
insert_file-AreShown name content ((n, c) ∷ files) s h = elim (Bool-cases (name == n)) [
  | inl e ↦ ground (arith, e, s, h.0, h.1)
  | inr e ↦ ground (arith, e, s, h.0, h.1, insert_file-AreShown name content files s h.1)
]

-- The files that have been written come before a name, or before all that are to be written.
AllBefore : Files → Text → Type 0
AllBefore [] x = Unit
AllBefore (f ∷ files) x = (text_lt f.0 x ≡ true) × AllBefore files x

ComeFirst : Files → Files → Type 0
ComeFirst written [] = Unit
ComeFirst written (f ∷ todo) = AllBefore written f.0 × ComeFirst written todo

AllBefore-NoFile : (files : Files) (x : Text) → AllBefore files x → NoFile x files
unfolding AllBefore
AllBefore-NoFile [] x h = refl
AllBefore-NoFile (f ∷ files) x h = elim (Bool-cases (f.0 == x)) [
  | inl e ↦
      let same : text_lt x x ≡ true =
        subst (λ y. text_lt y x ≡ true) ((text_eq.beq_iff f.0 x).0 e) h.0 in
      ground (arith, same, text_lt_irrefl x)
  | inr e ↦ ground (arith, e, AllBefore-NoFile files x h.1)
]

AllBefore-append :
    (files : Files) (f : Text × Text) (x : Text)
    → AllBefore files x
    → text_lt f.0 x ≡ true
    → AllBefore (files ++ f ∷ []) x
unfolding AllBefore
AllBefore-append [] f x h k = (k, tt)
AllBefore-append (g ∷ files) f x h k = (h.0, AllBefore-append files f x h.1 k)

ComeFirst-append :
    (written todo : Files) (f : Text × Text)
    → ComeFirst written todo
    → AllBehind f.0 todo
    → ComeFirst (written ++ f ∷ []) todo
unfolding ComeFirst AllBehind
ComeFirst-append written [] f h k = tt
ComeFirst-append written (g ∷ todo) f h k =
    (AllBefore-append written f g.0 h.0 k.0, ComeFirst-append written todo f h.1 k.1)

Ascending-AreDistinct :
    (written todo : Files) → ComeFirst written todo → Ascending todo → AreDistinct written todo
unfolding ComeFirst Ascending
Ascending-AreDistinct written [] h k = tt
Ascending-AreDistinct written (f ∷ todo) h k = (
  AllBefore-NoFile written f.0 h.0,
  Ascending-AreDistinct (written ++ f ∷ []) todo (ComeFirst-append written todo f h.1 k.0) k.1,
)

none-ComeFirst : (todo : Files) → ComeFirst [] todo
unfolding ComeFirst AllBefore
none-ComeFirst [] = tt
none-ComeFirst (f ∷ todo) = (tt, none-ComeFirst todo)

-- The name of an interface begins with "wgp".
interface-IsShown :
    (name : Text) (peer_id : ℕ) → name ≡ iface_of peer_id → IsShown (name ++ text ".conf")
unfolding iface_of text
interface-IsShown name peer_id e = subst (λ n. IsShown (n ++ text ".conf")) (sym e) refl

module _ (self : PeerManager) where
  desired-Ascending :
      (peers : List Peer) (files desired : Files)
      → desired_files self peers files ≡ ok desired
      → Ascending files
      → AreShown files
      → Ascending desired × AreShown desired
  unfolding desired_files
  desired-Ascending [] files desired e a s =
      let same : files ≡ desired = ground (arith, e) in
      (subst Ascending same a, subst AreShown same s)
  desired-Ascending (peer ∷ peers) files desired e a s =
      elim (Bool-cases (peer.iface_name == iface_of peer.peer_id)) [
        | inl q ↦
            desired-Ascending peers _ desired (ground (arith, q, e))
              (insert_file-Ascending (peer.iface_name ++ text ".conf")
                (render_peer_config self peer) files a)
              (insert_file-AreShown (peer.iface_name ++ text ".conf") (render_peer_config self peer)
                files
                (interface-IsShown peer.iface_name peer.peer_id
                  ((text_eq.beq_iff peer.iface_name (iface_of peer.peer_id)).0 q))
                s)
        | inr q ↦ absurd (ground (arith, q, e))
      ]

  -- What the loop over the peers makes can be installed.
  pub desired_files-AreDistinct :
      (peers : List Peer) (desired : Files)
      → desired_files self peers [] ≡ ok desired
      → AreShown desired × AreDistinct [] desired
  unfolding Ascending
  desired_files-AreDistinct peers desired e =
      let both = desired-Ascending peers [] desired e tt tt in
      (both.1, Ascending-AreDistinct [] desired (none-ComeFirst desired) both.0)
