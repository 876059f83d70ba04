-- ===== src/Server/Machine.antt =====
-- A machine whose files are a function from paths, for the tests of src/server/transfer and
-- src/client/transfer. Every call on it succeeds but those on a file that is not there.
use irosh.Common.{
  ◌≡◌, ◌≢◌, refl, ◌∙◌, ap, Bool, true, false, ◌&&◌, [], ◌∷◌, Option, none, some, Result, ok, err,
  Bool-cases, inl, inr, if◌then◌else◌, list_eq, list_eq_refl, list_eq→eq, arith, codes, ok_inj,
}
use irosh.Stream.{Bytes}
use irosh.Transfer.FilePath.{Component, normal, root_dir, cur_dir, parent_dir}
use irosh.Server.Paths.{PathBuf}
use irosh.Server.Host.{
  Content, plain, NoFlushFails, flush, process, file, copy, Host, IsLawful, IoFailure, Call, dest,
  written, not_found, command, test_e, test_e_or_l, test_d, mkdir_p, rm_f, mv, chmod,
  create_dir_all, remove_file, create, rename, set_permissions, spawn_cat, write_all, wait, Spares,
  succeeds,
}

abbrev component_eq : Component → Component → Bool
component_eq (normal a) (normal b) = list_eq a b
component_eq root_dir root_dir = true
component_eq cur_dir cur_dir = true
component_eq parent_dir parent_dir = true
component_eq _ _ = false

abbrev path_eq : PathBuf → PathBuf → Bool
path_eq [] [] = true
path_eq [] (d ∷ q) = false
path_eq (c ∷ p) [] = false
path_eq (c ∷ p) (d ∷ q) = component_eq c d && path_eq p q

component_eq_refl : (c : Component) → component_eq c c ≡ true
component_eq_refl (normal a) = list_eq_refl a
component_eq_refl root_dir = refl
component_eq_refl cur_dir = refl
component_eq_refl parent_dir = refl

component_eq→eq : (c d : Component) → component_eq c d ≡ true → c ≡ d
component_eq→eq (normal a) (normal b) h = ap normal (list_eq→eq a b h)
component_eq→eq root_dir root_dir h = refl
component_eq→eq cur_dir cur_dir h = refl
component_eq→eq parent_dir parent_dir h = refl
component_eq→eq _ _ h = ground arith

path_eq_refl : (p : PathBuf) → path_eq p p ≡ true
path_eq_refl [] = refl
path_eq_refl (c ∷ p) = ground (arith, component_eq_refl c, path_eq_refl p)

path_eq→eq : (p q : PathBuf) → path_eq p q ≡ true → p ≡ q
path_eq→eq [] [] h = refl
path_eq→eq [] (d ∷ q) h = ground arith
path_eq→eq (c ∷ p) [] h = ground arith
path_eq→eq (c ∷ p) (d ∷ q) h = ground (arith, component_eq→eq c d, path_eq→eq p q)

abbrev pub Files : Type 0
Files = PathBuf → Option Bytes

abbrev set : PathBuf → Option Bytes → Files → Files
set p v w q = if path_eq q p then v else w q

set_same : (p : PathBuf) (v : Option Bytes) (w : Files) → set p v w p ≡ v
set_same p v w = rw (path_eq_refl p) refl

set_ne : (p q : PathBuf) (v : Option Bytes) (w : Files) → q ≢ p → set p v w q ≡ w q
set_ne p q v w h = elim (Bool-cases (path_eq q p)) [
  | inl e ↦ absurd (h (path_eq→eq q p e))
  | inr e ↦ rw e refl
]

abbrev present : Option Bytes → Bool
present none = false
present (some b) = true

abbrev moved :
    PathBuf → PathBuf → Option Bytes → Files → Result IoFailure Bool → Result IoFailure Bool × Files
moved from to none w fault = (fault, w)
moved from to (some b) w fault = (ok true, set to (some b) (set from none w))

abbrev pub missing : IoFailure
missing = record { kind = not_found; text = [] }

abbrev copied : PathBuf → Option Bytes → Files → Result IoFailure Bool × Files
copied to none w = (err missing, w)
copied to (some b) w = (ok true, set to (some b) w)

abbrev run : Call → Files → Result IoFailure Bool × Files
run (command pid (test_e p)) w = (ok (present (w p)), w)
run (command pid (test_e_or_l p)) w = (ok (present (w p)), w)
run (command pid (test_d p)) w = (ok false, w)
run (command pid (mkdir_p p)) w = (ok true, w)
run (command pid (rm_f p)) w = (ok true, set p none w)
run (command pid (mv from to)) w = moved from to (w from) w (ok false)
run (command pid (chmod mode p)) w = (ok true, w)
run (create_dir_all p) w = (ok true, w)
run (remove_file p) w = (ok true, set p none w)
run (create p) w = (ok true, set p (some []) w)
run (rename from to) w = moved from to (w from) w (err missing)
run (copy from to) w = copied to (w from) w
run (set_permissions p mode) w = (ok true, w)
run (spawn_cat pid p) w = (ok true, set p (some []) w)
run (write_all sink chunk) w = (ok true, w)
run (flush sink) w = (ok true, set (dest sink) (some (written sink)) w)
run (wait (process pid p bytes)) w = (ok true, set p (some bytes) w)
run (wait (file p bytes)) w = (ok true, w)

-- Every file of this machine can be read.
abbrev seen_as : Option Bytes → Option Content
seen_as none = none
seen_as (some b) = some (plain b)

abbrev stat : Option Bytes → Result IoFailure (Unit {0})
stat none = err missing
stat (some b) = ok tt

abbrev pub machine : Host Files
machine = record {
  home = some (root_dir ∷ normal (codes "root") ∷ []);
  process_cwd = λ pid w. ok (some (root_dir ∷ normal (codes "srv") ∷ []));
  part_suffix = λ w. codes "1.2";
  debug = λ f. [];
  to_string = λ e. [];
  best_error_message = λ e. [];
  metadata = λ p w. err missing;
  symlink_metadata = λ p w. stat (w p);
  has_stdin = λ sink w. true;
  stderr = λ sink w. [];
  perform = run;
  view = λ w p. seen_as (w p);
}

moved_new :
    (from to : PathBuf) (v : Option Bytes) (w : Files)
    → v ≡ w from
    → seen_as (w to) ≡ none
    → let (r, w') = moved from to v w (ok false) in
      seen_as (w' to) ≡ (if succeeds r then seen_as (w from) else none)
moved_new from to none w h free = free
moved_new from to (some b) w h free = ap seen_as (set_same to (some b) (set from none w) ∙ h)

moved_ne :
    (from to q : PathBuf) (v : Option Bytes) (w : Files) (fault : Result IoFailure Bool)
    → q ≢ from
    → q ≢ to
    → (moved from to v w fault).1 q ≡ w q
moved_ne from to q none w fault h k = refl
moved_ne from to q (some b) w fault h k =
    set_ne to q (some b) (set from none w) k ∙ set_ne from q none w h

copied_ne : (to q : PathBuf) (v : Option Bytes) (w : Files) → q ≢ to → (copied to v w).1 q ≡ w q
copied_ne to q none w h = refl
copied_ne to q (some b) w h = set_ne to q (some b) w h

copied_same :
    (to from : PathBuf) (v : Option Bytes) (w : Files) (success : Bool)
    → v ≡ w from
    → (copied to v w).0 ≡ ok success
    → (copied to v w).1 to ≡ w from
copied_same to from none w success h e = cc
copied_same to from (some b) w success h e = set_same to (some b) w ∙ h

run_frame : (c : Call) (q : PathBuf) (w : Files) → Spares q c → (run c w).1 q ≡ w q
run_frame (command pid (rm_f p)) q w h = set_ne p q none w h.0
run_frame (command pid (mv from to)) q w h = moved_ne from to q (w from) w (ok false) h.0 h.1.0
run_frame (command pid (test_e p)) q w h = refl
run_frame (command pid (test_e_or_l p)) q w h = refl
run_frame (command pid (test_d p)) q w h = refl
run_frame (command pid (mkdir_p p)) q w h = refl
run_frame (command pid (chmod mode p)) q w h = refl
run_frame (create_dir_all p) q w h = refl
run_frame (remove_file p) q w h = set_ne p q none w h.0
run_frame (create p) q w h = set_ne p q (some []) w h.0
run_frame (rename from to) q w h = moved_ne from to q (w from) w (err missing) h.0 h.1.0
run_frame (copy from to) q w h = copied_ne to q (w from) w h.0
run_frame (set_permissions p mode) q w h = refl
run_frame (spawn_cat pid p) q w h = set_ne p q (some []) w h.0
run_frame (write_all sink chunk) q w h = refl
run_frame (flush sink) q w h = set_ne (dest sink) q (some (written sink)) w h.0
run_frame (wait (process pid p bytes)) q w h = set_ne p q (some bytes) w h.0
run_frame (wait (file p bytes)) q w h = refl

not_present : (v : Option Bytes) → present v ≡ false → v ≡ none
not_present none h = refl
not_present (some b) h = ground arith

stat_finds : (v : Option Bytes) (e : IoFailure) → stat v ≡ err e → v ≡ none
stat_finds none e h = refl
stat_finds (some b) e h = cc

renamed :
    (from to : PathBuf) (v : Option Bytes) (w : Files) (success : Bool)
    → v ≡ w from
    → (moved from to v w (err missing)).0 ≡ ok success
    → (moved from to v w (err missing)).1 to ≡ w from
renamed from to none w success h e = cc
renamed from to (some b) w success h e = set_same to (some b) (set from none w) ∙ h

not_renamed :
    (from to : PathBuf) (v : Option Bytes) (w : Files) (x : IoFailure)
    → (moved from to v w (err missing)).0 ≡ err x
    → (moved from to v w (err missing)).1 to ≡ w to
not_renamed from to none w x e = refl
not_renamed from to (some b) w x e = cc

unmoved :
    (from to : PathBuf) (v : Option Bytes) (w : Files) (x : IoFailure)
    → (moved from to v w (err missing)).0 ≡ err x
    → (moved from to v w (err missing)).1 from ≡ w from
unmoved from to none w x e = refl
unmoved from to (some b) w x e = cc

pub machine-IsLawful : IsLawful machine
machine-IsLawful = record {
  frame = λ c q w h. ap seen_as (run_frame c q w h);
  test_finds = λ pid p w h. ap seen_as (not_present (w p) (ok_inj h));
  symlink_metadata_finds = λ p w e h k. ap seen_as (stat_finds (w p) e h);
  mv_moves = λ pid from to w free. moved_new from to (w from) w refl free;
  rename_moves = λ from to w success h. ap seen_as (renamed from to (w from) w success refl h);
  rename_fails = λ from to w e h. ap seen_as (not_renamed from to (w from) w e h);
  rename_keeps = λ from to w e h. ap seen_as (unmoved from to (w from) w e h);
  copy_copies =
      λ from to w success ne h. ap seen_as (copied_same to from (w from) w success refl h);
  wait_writes = λ pid p bytes w h. ap seen_as (set_same p (some bytes) w);
  flush_writes = λ p bytes w success h. ap seen_as (set_same p (some bytes) w);
  wait_keeps = λ p bytes w. refl;
}

pub machine-NoFlushFails : NoFlushFails machine
machine-NoFlushFails p bytes w = (true, refl)
