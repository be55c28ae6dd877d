-- ===== src/ConMgr.antt =====
-- src/listener.cc and include/listener.h: the class BaseConMgr, which owns the connections of a
-- server, and the identifiers of SvrCon. A SvrCon is known by its address; `objs` is the part of
-- the heap that holds such objects, with the identifier of each; `none` is no object. The
-- unordered_map m_all_connector is a list of its entries in the order of a walk over it.
pub mod Registry
pub mod Owned
pub mod Walk
pub mod Closing
pub mod Posted
pub mod Abstract
pub mod Cleaner
pub mod Ids
use libevent_cpp.Prelude.{
  ℕ, suc, ◌+◌, ◌*◌, ◌%◌, ◌^◌, Bool, true, false, Option, none, some, List, [], ◌∷◌, ◌++◌, ◌==◌,
  if◌then◌else◌,
}
use libevent_cpp.Prelude.Outcome.{Outcome, ok, fault, Fault, ◌>>=◌}

-- The entries of an unordered_map<uint64, SvrCon *>.
abbrev pub Entries : Type 0
Entries = List (ℕ × ℕ)

unfoldable pub lookup : ℕ → Entries → Option ℕ
lookup id [] = none
lookup id ((k, p) ∷ es) = if k == id then some p else lookup id es

unfoldable pub erase : ℕ → Entries → Entries
erase id [] = []
erase id ((k, p) ∷ es) = if k == id then es else (k, p) ∷ erase id es

-- `m[id] = p`.
unfoldable pub assign : ℕ → ℕ → Entries → Entries
assign id p [] = (id, p) ∷ []
assign id p ((k, q) ∷ es) = if k == id then (k, p) ∷ es else (k, q) ∷ assign id p es

abbrev pub pointers : Entries → List ℕ
pointers [] = []
pointers ((k, p) ∷ es) = p ∷ pointers es

pub record ConMgr : Type 0 where
  pub m_all_connector : Entries
  pub m_vwdc : List ℕ
  pub objs : ℕ → Option ℕ
  pub seed : ℕ

-- The constructor, over a heap with no connection object; the timer that it starts calls
-- on_timer_del_conn.
unfoldable pub new_con_mgr : ℕ → ConMgr
new_con_mgr seed = record { m_all_connector = []; m_vwdc = []; objs = λ p. none; seed = seed }

unfoldable pub find_conn : ℕ → ConMgr → Option ℕ
find_conn id m = lookup id m.m_all_connector

unfoldable get_con_size : ConMgr → ℕ
get_con_size m = size m.m_all_connector % 2 ^ 32
  where
    size : Entries → ℕ
    size [] = 0
    size (e ∷ es) = suc (size es)

unfoldable pub post_del_conn : ℕ → ConMgr → ConMgr × Bool
post_del_conn id m = elim (lookup id m.m_all_connector) [
  | none ↦ (m, false)
  | some p ↦
      (record m { m_all_connector = erase id m.m_all_connector; m_vwdc = m.m_vwdc ++ p ∷ [] }, true)
]

-- `sec << 32 | seed` in 64 bits; the low 32 bits of the first are zero.
unfoldable pub svr_id : ℕ → ℕ → ℕ
svr_id sec seed = sec * 2 ^ 32 % 2 ^ 64 + seed

abbrev pub next_seed : ℕ → ℕ
next_seed seed = (seed + 1) % 2 ^ 32

abbrev pub set_obj : (ℕ → Option ℕ) → ℕ → Option ℕ → ℕ → Option ℕ
set_obj objs p v q = if p == q then v else objs q

-- NewConnect made the object at address `p`, or returned null, at time `sec`.
unfoldable pub create_connect_for_listener : Option ℕ → ℕ → ConMgr → ConMgr × Option ℕ
create_connect_for_listener none sec m = (m, none)
create_connect_for_listener (some p) sec m =
    let s = next_seed m.seed in
    let id = svr_id sec s in
    (
      record m {
        m_all_connector = assign id p m.m_all_connector;
        objs = set_obj m.objs p (some id);
        seed = s;
      },
      some p,
    )

-- `delete p`.
pub delete_con : ℕ → (ℕ → Option ℕ) → Outcome (ℕ → Option ℕ)
delete_con p objs = elim (objs p) [
  | none ↦ fault Fault.use_after_free
  | some id ↦ ok (set_obj objs p none)
]

pub delete_all : List ℕ → (ℕ → Option ℕ) → Outcome (ℕ → Option ℕ)
unfolding delete_con
delete_all [] objs = ok objs
delete_all (p ∷ ps) objs = delete_con p objs >>= λ objs'. delete_all ps objs'

pub on_timer_del_conn : ConMgr → Outcome ConMgr
on_timer_del_conn m =
    delete_all m.m_vwdc m.objs >>= λ objs. ok (record m { m_vwdc = []; objs = objs })

-- ~BaseConMgr.
pub destroy_con_mgr : ConMgr → Outcome ConMgr
destroy_con_mgr m = delete_all (pointers m.m_all_connector) m.objs >>= λ objs.
    ok (record m { m_all_connector = []; objs = objs })

-- The second loop of Foreach: the callback is given a reference to each object.
pub visit : (ℕ → ConMgr → Outcome ConMgr) → List ℕ → ConMgr → Outcome ConMgr
visit cb [] m = ok m
visit cb (p ∷ ps) m = elim (m.objs p) [
  | none ↦ fault Fault.use_after_free
  | some id ↦ cb p m >>= λ m'. visit cb ps m'
]

-- Foreach walks over a copy, since the callback may change m_all_connector. No pointer in it is
-- null.
pub foreach : (ℕ → ConMgr → Outcome ConMgr) → ConMgr → Outcome ConMgr
unfolding visit
foreach cb m = visit cb (pointers m.m_all_connector) m
