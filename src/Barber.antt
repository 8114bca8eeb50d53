-- ===== src/Barber.antt =====
-- apps/sleeping_barber_problem: a barber and customers in processes over a queue in shared memory and
-- three semaphores.
pub mod Roles
pub mod Shop
pub mod System
pub mod Tests
