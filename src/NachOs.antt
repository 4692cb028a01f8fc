-- ===== src/NachOs.antt =====
-- The kernel of the course's operating system (nachOS/code/userprog): the table of open files, the
-- address spaces and the system calls. The machine, its bit maps and the host are parameters.
pub mod Base
pub mod OpenFilesTable
pub mod Resultado
pub mod Copia
pub mod AddrSpace
pub mod Carga
pub mod Nucleo
pub mod Lectura
pub mod Sockets
pub mod Despacho
pub mod Contador
pub mod Quietud
pub mod Cuentas
pub mod Referencias
pub mod Espacios
pub mod Vivos
pub mod Abiertos
pub mod Rechazo
pub mod Synch
pub mod Condicion
pub mod Cola
pub mod Barrera
pub mod Reunion
pub mod Exclusion
mod Modelo
mod Tests
mod TestsVivos
mod TestsCondicion
mod TestsBarrera
pub mod Avance
pub mod IdaVuelta
