-- ===== src/Examples/Server.antt =====
-- A server's connections, and a buffer that is read from the front.
use libevent_cpp.Prelude.{
  ℕ, ◌≡◌, ◌^◌, ◌%◌, ◌+◌, refl, true, false, Option, none, some, List, [], ◌∷◌, ◌++◌, arith, take,
  drop, length,
}
use libevent_cpp.Prelude.Int.{is_zero}
use libevent_cpp.Prelude.Outcome.{ok}
use libevent_cpp.Env.{Env}
use libevent_cpp.Con.{Con, Handlers, new_con}
use libevent_cpp.Con.Valid
use libevent_cpp.ConMgr.{
  lookup, assign, ConMgr, new_con_mgr, find_conn, post_del_conn, destroy_con_mgr,
  create_connect_for_listener, svr_id,
}
use libevent_cpp.ConMgr.Registry.{count}
use libevent_cpp.ConMgr.Owned.{alive, IsValid, new_con_mgr-IsValid, destroy_con_mgr_leaks}
use libevent_cpp.ConMgr.Walk.{call, post_del, create, Reach, here, calls, Reach-IsValid}
use libevent_cpp.ConMgr.Abstract.{
  Op, op_create, op_post, op_timer, operate_all, specified_all, view, operate_all-specified,
}
use libevent_cpp.ConMgr.Cleaner.{Cleaner, new_cleaner, rounds, specified_rounds, rounds-specified}
use libevent_cpp.Timer.{wait_time_out}
use libevent_cpp.ConMgr.Ids.{svr_ids, svr_ids_unique}
use libevent_cpp.Listener.{Manages, Listener, svr_disconnect}
use libevent_cpp.Listener.Accept.{svr_disconnect_up}
use libevent_cpp.Http.{Evbuffer}
use libevent_cpp.Examples.World.{Buffers, world, server_addr, empty, open_with}

-- Two connections at addresses 100 and 200, made in second 9; the first is posted for deletion.
abbrev one_made : ConMgr
one_made = call (create 100 9) (new_con_mgr 0)

abbrev pub two_made : ConMgr
two_made = call (create 200 9) one_made

abbrev one_posted : ConMgr
one_posted = call (post_del 38654705665) two_made

history_one : Reach (new_con_mgr 0) one_made
unfolding new_con_mgr lookup
history_one = calls here (create 100 9) (refl, refl)

history_two : Reach (new_con_mgr 0) two_made
unfolding new_con_mgr create_connect_for_listener svr_id lookup assign
history_two = calls history_one (create 200 9) (refl, refl)

history_posted : Reach (new_con_mgr 0) one_posted
history_posted = calls history_two (post_del 38654705665) tt

pub two_IsValid : IsValid two_made
two_IsValid = Reach-IsValid (new_con_mgr-IsValid 0) history_two

posted_IsValid : IsValid one_posted
posted_IsValid = Reach-IsValid (new_con_mgr-IsValid 0) history_posted

operate_all-specified_example :
    (m : ConMgr) × (operate_all (op_create 300 9 ∷ op_post 38654705665 ∷ op_timer ∷ []) two_made
      ≡ ok m)
    × IsValid m
    × (view m
        ≡ specified_all (op_create 300 9 ∷ op_post 38654705665 ∷ op_timer ∷ []) (view two_made))
unfolding find_conn create_connect_for_listener svr_id new_con_mgr lookup assign
operate_all-specified_example =
    operate_all-specified (op_create 300 9 ∷ op_post 38654705665 ∷ op_timer ∷ []) two_made
      two_IsValid ((refl, refl), (tt, (tt, tt)))

-- Two rounds: an object is made; it is posted, and another one is made.
abbrev two_rounds : List (List Op)
two_rounds = (op_create 300 9 ∷ []) ∷ (op_post 38654705665 ∷ op_create 400 9 ∷ []) ∷ []

rounds-specified_example :
    (c : Cleaner) × (c' : Cleaner) × (new_cleaner (record { creates = true; adds = true }) 0 ≡ ok c)
    × (rounds two_rounds c ≡ ok c')
    × (view c'.mgr ≡ specified_rounds two_rounds (view (new_con_mgr 0)))
    × (c'.m_timer.m_state ≡ wait_time_out)
unfolding find_conn svr_id new_con_mgr lookup
rounds-specified_example =
    rounds-specified (record { creates = true; adds = true }) 0 two_rounds refl refl
      (((refl, refl), tt), ((tt, ((refl, refl), tt)), tt))

destroy_con_mgr_leaks_example :
    (m : ConMgr) × (destroy_con_mgr one_posted ≡ ok m)
    × ((q : ℕ) → alive (m.objs q) ≡ count q one_posted.m_vwdc)
destroy_con_mgr_leaks_example = destroy_con_mgr_leaks one_posted posted_IsValid

abbrev times : List ℕ
times = 9 ∷ 9 ∷ 10 ∷ []

svr_ids_unique_example : (◌≡◌ {A = ℕ} 9 9) × ((0 + 1 + 1) % 2 ^ 32 ≡ (0 + 1 + 1) % 2 ^ 32)
unfolding svr_ids svr_id
svr_ids_unique_example =
    svr_ids_unique times 0 1 1 38654705666 9 9 refl refl refl refl (omega arith) (omega arith)

-- The user's state of a server's connection is the manager itself.
abbrev pub office : Env
office = world ConMgr

abbrev pub itself : Manages ConMgr
itself = record { get = λ u. u; set = λ m u. m; get-set = λ m u. refl }

abbrev app : Handlers office
app = record {
  on_recv = λ m c. ok c;
  on_connected = λ c. ok c;
  on_error = λ e c. ok c;
  on_disconnected = λ c. ok c;
  on_raw_recv = λ p n c. ok (c, n);
}

abbrev no_heap : ℕ → Option Buffers
no_heap p = none

abbrev fresh_con : Con office
fresh_con = new_con office no_heap two_made

abbrev pub served : Con office
served = open_with empty two_made

served_IsValid : Valid.IsValid Valid.Anything served
served_IsValid = Valid.attached 1 empty refl refl refl refl tt

pub served_found : find_conn 38654705665 two_made ≡ some 100
unfolding find_conn create_connect_for_listener svr_id new_con_mgr lookup assign
served_found = refl

svr_disconnect_up_example :
    (d : Con office) × (svr_disconnect itself 38654705665 app served ≡ ok (d, false))
    × (is_zero d.m_fd ≡ true)
    × (find_conn 38654705665 d.user ≡ none)
    × (d.user.m_vwdc ≡ two_made.m_vwdc ++ 100 ∷ [])
    × ((bev : ℕ) → served.m_buf_e ≡ some bev → d.bevs bev ≡ none)
    × (d.user ≡ (post_del_conn 38654705665 two_made).0)
    × (d.m_buf_e ≡ none)
    × (d.is_deleted ≡ false)
svr_disconnect_up_example =
    svr_disconnect_up itself 38654705665 100 app served served_IsValid refl two_IsValid served_found

abbrev pub door : Listener
door = record { m_listener = true; m_addr = server_addr }

abbrev pub plain : Evbuffer
plain = record {
  Buf = List ℕ;
  contents = λ b. b;
  get_length = length;
  remove = λ b n. (take n b, drop n b);
  get_length_lem = λ b. refl;
  remove_lem = λ b n. refl;
  contents-remove = λ b n. refl;
}
