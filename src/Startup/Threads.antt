-- ===== src/Startup/Threads.antt =====
-- The semaphores and the threads that `main` of Core/main_tirtos.c and `mainThread` of Core/empty.c
-- create, with the codes of the calls as arguments. A code of the pthread functions is 0 or a
-- number of an error.
pub mod Reported
pub mod Entry
use plhr_firmware.Common.{ℕ, Bool, true, false, List, [], ◌∷◌, ◌++◌, ◌==◌, if◌then◌else◌, bit_or}

-- The routines of the threads.
pub data Thread : Type 0 where
  send_data : Thread
  thread_downsampling : Thread
  softtimer : Thread
  test_wifi : Thread

pub data Semaphore : Type 0 where
  dws_semaphore : Semaphore
  send_data_semaphore : Semaphore
  softtimer_thread_semaphore : Semaphore
  sync_semaphore : Semaphore

-- The call that an error line stands behind.
pub data Failure : Type 0 where
  creation_of : Semaphore → Failure
  detach_state : Thread → Failure
  stack_size : Thread → Failure
  thread_creation : Thread → Failure

-- What the creation has come to.
pub record Created : Type 0 where
  pub semaphores : List Semaphore
  pub running : List Thread
  pub printed : List Failure

-- The codes of `pthread_attr_setdetachstate`, `pthread_attr_setstacksize` and `pthread_create`.
pub record Codes : Type 0 where
  pub detach : ℕ
  pub stack : ℕ
  pub create : ℕ

abbrev pub line_if : Bool → Failure → List Failure
line_if failed f = if failed then f ∷ [] else []

-- `SemaphoreP_create`, and the line where it gives no semaphore.
pub create_semaphore : Semaphore → Bool → Created → Created
create_semaphore s found c =
    if found
    then record c { semaphores = c.semaphores ++ s ∷ [] }
    else record c { printed = c.printed ++ creation_of s ∷ [] }

-- Where the code of `pthread_attr_setstacksize` is taken for a failure: at the first two threads if
-- it is not 0, at the last two if it is below 0.
pub stack_failed : Thread → ℕ → Bool
stack_failed send_data code = if code == 0 then false else true
stack_failed thread_downsampling code = if code == 0 then false else true
stack_failed softtimer code = false
stack_failed test_wifi code = false

-- The block of calls that creates a thread, which goes on whatever they answer.
pub create_thread : Thread → Codes → Created → Created
unfolding stack_failed
create_thread t a c = record c {
  running = if a.create == 0 then c.running ++ t ∷ [] else c.running;
  printed =
      c.printed
      ++ (line_if (if a.detach == 0 then false else true) (detach_state t)
          ++ (line_if (stack_failed t a.stack) (stack_size t)
              ++ line_if (if a.create == 0 then false else true) (thread_creation t)));
}

pub create_semaphores : (Semaphore → Bool) → Created
create_semaphores found = create_semaphore sync_semaphore (found sync_semaphore) (
    create_semaphore softtimer_thread_semaphore (found softtimer_thread_semaphore) (
      create_semaphore send_data_semaphore (found send_data_semaphore) (
        create_semaphore dws_semaphore (found dws_semaphore)
          (record { semaphores = []; running = []; printed = [] }))))

pub create_threads : (Thread → Codes) → Created → Created
create_threads codes c = create_thread test_wifi (codes test_wifi) (
    create_thread softtimer (codes softtimer) (
      create_thread thread_downsampling (codes thread_downsampling)
        (create_thread send_data (codes send_data) c)))

-- The four semaphores, then the four threads.
pub create_all : (Semaphore → Bool) → (Thread → Codes) → Created
create_all found codes = create_threads codes (create_semaphores found)

-- What `main` comes to.
pub data Main : Type 0 where
  attributes_failed : Main  -- while (1) {}
  creation_failed : Main  -- while (1) {}
  bios_started : Main

-- `main`: the codes of `pthread_attr_setschedparam`, `pthread_attr_setdetachstate`,
-- `pthread_attr_setstacksize` and `pthread_create`.
pub main : ℕ → ℕ → ℕ → ℕ → Main
main sched detach stack create =
    if bit_or (bit_or sched detach) stack == 0
    then (if create == 0 then bios_started else creation_failed)
    else attributes_failed
